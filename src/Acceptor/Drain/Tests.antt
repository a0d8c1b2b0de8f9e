-- ===== src/Acceptor/Drain/Tests.antt =====
-- acceptor/tls_drain.rs: two sessions, one of which outlives the deadline.
use five_nines_echo.Base.{ℕ, ◌≡◌, refl, true, none, some, List, [], ◌∷◌, arith}
use five_nines_echo.Acceptor.Drain.{
  TlsHandoff, SessionOutcome, DrainerEvent, ThreadStep, Event, harvest_tls_handoffs,
  send_drainer_event, run_tls_drainer_child, step, after,
}
use five_nines_echo.Acceptor.Drain.Account.{IsAccounted}
use five_nines_echo.Acceptor.Drain.Told.{after-IsAccounted}

abbrev first : TlsHandoff ℕ
first = record { tcp_fd = 10; uds_fd = 11; conn = 0; peer_addr = "192.0.2.1:4000" }

abbrev second : TlsHandoff ℕ
second = record { tcp_fd = 12; uds_fd = 13; conn = 1; peer_addr = "192.0.2.2:4000" }

-- Three clients, one of which ended before it could hand over.
harvested :
    harvest_tls_handoffs (
      record { tls_handoff = some (some first) }
      ∷ record { tls_handoff = some none }
      ∷ record { tls_handoff = some (some second) }
      ∷ [])
    ≡ first ∷ second ∷ []
unfolding harvest_tls_handoffs
harvested = refl

-- The first session ends; the deadline comes after its report and before its count is lowered.
abbrev late_run : List Event
late_run =
    Event.exits
    ∷ Event.deadline_reports true
    ∷ Event.on_thread 0 ThreadStep.subtracts
    ∷ Event.deadline_loads
    ∷ Event.on_thread 0 (ThreadStep.reports true)
    ∷ Event.on_thread 0 (ThreadStep.drained SessionOutcome.clean_eof)
    ∷ []

-- The count that is reported still has the session whose report went out.
counts_two :
    (after
      (λ e. true)
      (run_tls_drainer_child (λ e. true) true true 9 3 (first ∷ second ∷ []))
      late_run).reporter.log
    ≡ DrainerEvent.deadline_exit 2
      ∷ DrainerEvent.session_done "192.0.2.1:4000" SessionOutcome.clean_eof
      ∷ DrainerEvent.hello "tls" 9 3 2
      ∷ []
unfolding after run_tls_drainer_child step send_drainer_event
counts_two = refl

after-IsAccounted_example : IsAccounted 2 (
    after
      (λ e. true)
      (run_tls_drainer_child (λ e. true) true true 9 3 (first ∷ second ∷ []))
      late_run)
after-IsAccounted_example =
    after-IsAccounted (λ e. true) (λ e. refl) true true 9 3 (first ∷ second ∷ []) late_run
      (omega arith)
