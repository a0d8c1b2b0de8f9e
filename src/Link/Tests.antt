-- ===== src/Link/Tests.antt =====
-- supervisor/control.rs and supervisor/worker.rs: runs of the model, and the theorems at concrete
-- inputs.
use five_nines_echo.Base.{
  ℕ, suc, ◌+◌, ◌<◌, ◌≡◌, ◌≢◌, refl, inl, inr, Bool, true, false, Option, none, some, List, [], ◌∷◌,
  arith, nat_key, string_key,
}
use five_nines_echo.Base.Words.{from_millis, from_secs}
use five_nines_echo.Control.{WorkerStatus}
use five_nines_echo.Auth.{from_uids, check_peer}
use five_nines_echo.Watchdog.{watchdogs_init}
use five_nines_echo.Link.Connections.{Event, step, after}
use five_nines_echo.Link.Epoch.{Newest, cleared, after-Newest, disconnect-link}
use five_nines_echo.Link.Successor.{
  MonitorOutcome, WaitPoll, Poll, Watch, wait_for_successor, monitor, monitor_successor,
}
use five_nines_echo.Link.Successor.Wait.{
  Decides, wait_for_successor-Decides, wait_for_successor_total,
}
use five_nines_echo.Link.Successor.Monitor.{Ends, monitor_successor-Ends, monitor_lost}
use five_nines_echo.Link.Supervise.{RoleState, Pass, pass, supervise_adopted_successor}
use five_nines_echo.Link.Supervise.Generations.{Ascending, baseline, pass-Ascending}
use five_nines_echo.Link.Supervise.Respawn.{HandedOver, pass-respawn}

abbrev report : ℕ → WorkerStatus
report generation = record {
  role = "plain";
  pid = 40 + generation;
  generation = generation;
  started_at_unix_ms = 0;
  in_flight = 0;
  listener_addr = none;
  rate_limiter_stats = none;
}

abbrev dial : Event
dial = Event.connected (some 0) (from_uids (0 ∷ []))

-- A worker dials in and reports, and its successor dials in and reports: newest event first.
abbrev handover : List Event
handover = Event.reported 1 (report 1) ∷ dial ∷ Event.reported 0 (report 0) ∷ dial ∷ []

after-Newest_example : Newest (after handover) (after handover).link.writer
after-Newest_example = after-Newest handover

-- The old worker's connection ends late.
disconnect-link_example :
    let s = after handover in
    let s' = step s (Event.disconnected 0) in
    (suc 0 < s.accepted → s'.link ≡ s.link) × (suc 0 ≡ s.accepted → s'.link ≡ cleared s.link)
unfolding after step check_peer
disconnect-link_example = disconnect-link handover 0 1 (omega arith) refl

abbrev wait_at : ℕ → Option ℕ → WaitPoll
wait_at ms seen = record { seen = seen; now = from_millis ms }

wait_for_successor-Decides_example :
    Decides 0 (from_secs 5) (wait_at 0 (some 0) ∷ wait_at 50 none ∷ wait_at 100 (some 1) ∷ []) (
      wait_for_successor 0
        (from_secs 5)
        (wait_at 0 (some 0) ∷ wait_at 50 none ∷ wait_at 100 (some 1) ∷ []))
wait_for_successor-Decides_example = wait_for_successor-Decides 0 (from_secs 5) _

wait_for_successor_total_example :
    wait_for_successor 3
      (from_millis 100)
      (wait_at 0 (some 3) ∷ wait_at 50 none ∷ wait_at 100 none ∷ [])
    ≢ none
wait_for_successor_total_example =
    wait_for_successor_total 3 0 (from_millis 100)
      (wait_at 0 (some 3) ∷ wait_at 50 none ∷ wait_at 100 none ∷ [])
      (omega arith, (omega arith, (omega arith, tt))) (omega arith) (omega arith)

abbrev poll_at : ℕ → Bool → Poll
poll_at ms connected = record {
  connected = connected;
  last_pid = none;
  last_gen = none;
  now = from_millis ms;
}

abbrev gone_for_good : List Poll
gone_for_good = poll_at 200 false ∷ poll_at 300 false ∷ poll_at 3200 false ∷ []

monitor_successor-Ends_example :
    Ends 1
      (from_secs 3)
      none
      (poll_at 100 true ∷ gone_for_good)
      (monitor_successor none 1 (from_secs 3) (poll_at 100 true ∷ gone_for_good)).0
monitor_successor-Ends_example =
    monitor_successor-Ends none 1 (from_secs 3) (poll_at 100 true ∷ gone_for_good)

abbrev watching : Watch
watching = record { absent_since = none; current_pid = some 41 }

monitor_lost_example : (monitor 1 (from_secs 3) watching gone_for_good).0 ≡ some MonitorOutcome.lost
monitor_lost_example =
    monitor_lost 1 (from_secs 3) watching (poll_at 200 false)
      (poll_at 300 false ∷ poll_at 3200 false ∷ []) refl
      ((refl, refl), ((refl, refl), ((refl, refl), tt))) (inr (inl (omega arith)))

-- A worker of generation 1 commits an upgrade; its successor is adopted and then lost.
abbrev adopted_worker : RoleState
adopted_worker = record {
  current_generation = 1;
  next = some 41;
  current_pid = none;
  watchdogs = watchdogs_init;
}

abbrev commit_pass : Pass
commit_pass = record {
  spawned_at = 0;
  spawned_unix_ms = 0;
  spawned = none;
  reported = none;
  exited_at = 0;
  status = some (record { code = some 23 });
  stopping = false;
  wait_from = 0;
  wait_polls = wait_at 0 (some 1) ∷ wait_at 50 (some 2) ∷ [];
  rounds = record { adopted_at = 0; seen_pid = some 42; polls = gone_for_good } ∷ [];
}

pass-Ascending_example :
    Ascending
      (baseline adopted_worker commit_pass)
      (pass "plain" adopted_worker commit_pass).generations
pass-Ascending_example = pass-Ascending "plain" adopted_worker commit_pass

pass-respawn_example :
    HandedOver
      (baseline adopted_worker commit_pass)
      commit_pass
      (pass "plain" adopted_worker commit_pass)
unfolding pass wait_for_successor supervise_adopted_successor monitor_successor monitor
pass-respawn_example = pass-respawn "plain" adopted_worker commit_pass refl
