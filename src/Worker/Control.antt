-- ===== src/Worker/Control.antt =====
-- `run_control_client` of the three kinds of worker: it reads the supervisor's messages, over as many
-- connections as it takes. A connection is what is read from it.
pub mod Once
mod Tests
use five_nines_echo.Base.{
  ℕ, suc, ◌+◌, String, Bool, true, false, ◌||◌, Option, none, some, List, [], ◌∷◌, length, ltb,
  if◌then◌else◌,
}
use five_nines_echo.Base.Words.{u64}
use five_nines_echo.Auth.{PeerAllowlist, from_config}
use five_nines_echo.Control.{ControlMsg, RateLimiterStats, WorkerStatus}

-- What a message meets: whether the answer to `Status` can be written, and the uids of the
-- configuration, if it loads.
pub record Circumstance : Type 0 where
  pub written : Bool
  pub configured_uids : Option (List ℕ)

-- A line that the codec refuses, one that is no message of this version, or a message.
pub data Line : Type 0 where
  undecodable : Line
  unknown : Line
  message : ControlMsg → Circumstance → Line

-- What a message leaves: it was the last of the client, or the connection ends, or the next is read.
pub data Then (A : Type 0) : Type 0 where
  terminal : A → Then A
  leave : A → Then A
  go_on : A → Then A

pub record UpgradeReq : Type 0 where
  pub binary_path : Option String

-- The channels of the processor and of the scanner, and their allowlist; `reports` counts the answers.
pub record Actions : Type 0 where
  pub shutdown : Bool
  pub upgrade : Option UpgradeReq
  pub allow : PeerAllowlist
  pub reports : ℕ

pub record AcceptorActions : Type 0 where
  pub shutdown : Option ℕ
  pub upgrade : Option UpgradeReq
  pub drain : Bool
  pub reload : ℕ
  pub reports : ℕ

abbrev report : Bool → Actions → Then Actions
report true a = Then.go_on (record a { reports = suc a.reports })
report false a = Then.leave a

abbrev reload : ℕ → Option (List ℕ) → Actions → Actions
reload effective none a = a
reload effective (some uids) a = record a { allow = from_config effective uids }

-- The processor's and the scanner's reaction; `effective` is the process's uid.
abbrev pub react : ℕ → ControlMsg → Circumstance → Actions → Then Actions
react effective (ControlMsg.shutdown grace_ms) c a = Then.terminal (record a { shutdown = true })
react effective (ControlMsg.upgrade path include_tls canary_secs only_role) c a =
    Then.terminal (record a { upgrade = some (record { binary_path = path }) })
react effective ControlMsg.status c a = report c.written a
react effective ControlMsg.drain c a = Then.go_on a
react effective ControlMsg.reload c a = Then.go_on (reload effective c.configured_uids a)

abbrev acceptor_report : Bool → AcceptorActions → Then AcceptorActions
acceptor_report true a = Then.go_on (record a { reports = suc a.reports })
acceptor_report false a = Then.leave a

abbrev pub acceptor_react : ControlMsg → Circumstance → AcceptorActions → Then AcceptorActions
acceptor_react (ControlMsg.shutdown grace_ms) c a =
    Then.terminal (record a { shutdown = some grace_ms })
acceptor_react (ControlMsg.upgrade path include_tls canary_secs only_role) c a =
    Then.terminal (record a { upgrade = some (record { binary_path = path }) })
acceptor_react ControlMsg.status c a = acceptor_report c.written a
acceptor_react ControlMsg.drain c a = Then.go_on (record a { drain = true })
acceptor_react ControlMsg.reload c a = Then.go_on (record a { reload = u64 (a.reload + 1) })

pub data Ended : Type 0 where
  by_message gave_up running : Ended

abbrev pub proceed : {A : Type 0} → Then A → (A → A × Bool) → A × Bool
proceed (Then.terminal a) next = (a, true)
proceed (Then.leave a) next = (a, false)
proceed (Then.go_on a) next = next a

module _ {A : Type 0} (on_message : ControlMsg → Circumstance → A → Then A) where
  abbrev pub on_line : Line → A → Then A
  on_line Line.undecodable a = Then.leave a
  on_line Line.unknown a = Then.go_on a
  on_line (Line.message msg c) a = on_message msg c a

  -- One connection, to its end or to a terminal message.
  unfoldable pub serve : List Line → A → A × Bool
  serve [] a = (a, false)
  serve (l ∷ ls) a = proceed (on_line l a) (λ a'. serve ls a')

  -- Each connection that is dialled, or `none` where the supervisor cannot be reached. `running` is the
  -- client that waits for the next.
  unfoldable pub run_control_client : List (Option (List Line)) → A → A × Ended
  run_control_client [] a = (a, Ended.running)
  run_control_client (none ∷ cs) a = (a, Ended.gave_up)
  run_control_client (some ls ∷ cs) a =
      let rest = run_control_client cs (serve ls a).0 in
      if (serve ls a).1 then ((serve ls a).0, Ended.by_message) else rest

-- The status of a worker.
pub record StatusCtx : Type 0 where
  pub role : String
  pub pid : ℕ
  pub generation : ℕ
  pub started_at_unix_ms : ℕ
  pub listener_addr : String

abbrev pub snapshot : StatusCtx → ℕ → WorkerStatus
snapshot ctx in_flight = record {
  role = ctx.role;
  pid = ctx.pid;
  generation = ctx.generation;
  started_at_unix_ms = ctx.started_at_unix_ms;
  in_flight = in_flight;
  listener_addr = some ctx.listener_addr;
  rate_limiter_stats = none;
}

-- The limiter's counters, if one of them is above zero.
abbrev pub stats_of : ℕ × ℕ × ℕ × ℕ → Option RateLimiterStats
stats_of (tracked, idle, lru, refused) =
    if ltb 0 tracked || ltb 0 idle || ltb 0 lru || ltb 0 refused
    then some (record {
      tracked_ips = tracked;
      idle_evictions = idle;
      lru_evictions = lru;
      cap_refused = refused;
    })
    else none

abbrev pub acceptor_snapshot : StatusCtx → ℕ → ℕ × ℕ × ℕ × ℕ → WorkerStatus
acceptor_snapshot ctx in_flight stats = record (snapshot ctx in_flight) {
  rate_limiter_stats = stats_of stats;
}
