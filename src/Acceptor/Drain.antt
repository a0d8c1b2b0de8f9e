-- ===== src/Acceptor/Drain.antt =====
-- acceptor/tls_drain.rs: an upgrade of the TLS acceptor takes the live sessions off its tasks and forks; the
-- child serves them to their end, a thread for each, and reports to the supervisor. A step is what a
-- thread does between two points at which another can come in; no thread panics.
pub mod Account
pub mod Told
mod Tests
use five_nines_echo.Base.{
  ℕ, suc, String, Bool, true, false, ◌&&◌, not, Option, none, some, List, [], ◌∷◌, length,
  get_elem?, set, map, if◌then◌else◌,
}
use five_nines_echo.Limits.Session.{fetch_sub_one}

-- A session as its task hands it over; `C` is rustls's connection.
pub record TlsHandoff (C : Type 0) : Type 0 where
  pub tcp_fd : ℕ
  pub uds_fd : ℕ
  pub conn : C
  pub peer_addr : String

pub data SessionOutcome : Type 0 where
  clean_eof : SessionOutcome
  error : String → SessionOutcome

pub data DrainerEvent : Type 0 where
  -- role, pid, generation and the number of sessions
  hello : String → ℕ → ℕ → ℕ → DrainerEvent
  session_done : String → SessionOutcome → DrainerEvent
  complete : DrainerEvent
  deadline_exit : ℕ → DrainerEvent

-- A client of the registry: whether it has a channel for its handoff, and what comes out of it, if
-- anything does.
pub record ClientHandle (C : Type 0) : Type 0 where
  pub tls_handoff : Option (Option (TlsHandoff C))

abbrev handed :
    {C : Type 0} → Option (Option (TlsHandoff C)) → List (TlsHandoff C) → List (TlsHandoff C)
handed (some (some h)) hs = h ∷ hs
handed (some none) hs = hs
handed none hs = hs

-- The clients in the order in which the registry gives them.
unfoldable pub harvest_tls_handoffs : {C : Type 0} → List (ClientHandle C) → List (TlsHandoff C)
harvest_tls_handoffs [] = []
harvest_tls_handoffs (c ∷ cs) = handed c.tls_handoff (harvest_tls_handoffs cs)

-- The stream to the supervisor, while it holds, and what was written to it, the latest first.
pub record Reporter : Type 0 where
  pub connected : Bool
  pub log : List DrainerEvent

-- A session's thread: it serves the session; has its outcome to report; has still to lower the count; or
-- is at its end.
pub data Thread : Type 0 where
  draining : String → Thread
  ended : String → SessionOutcome → Thread
  reported finished : Thread

-- The deadline thread: before it reads the count, and before it reports it.
pub data Deadline : Type 0 where
  sleeping : Deadline
  loaded : ℕ → Deadline
  over : Deadline

pub record Drainer : Type 0 where
  pub threads : List Thread
  pub remaining : ℕ
  pub deadline : Deadline
  pub reporter : Reporter
  -- whether the main thread has joined the others
  pub joined : Bool
  pub exited : Bool

pub data ThreadStep : Type 0 where
  drained : SessionOutcome → ThreadStep
  reports : Bool → ThreadStep
  subtracts : ThreadStep

-- The flag of a report is whether its write succeeds.
pub data Event : Type 0 where
  on_thread : ℕ → ThreadStep → Event
  deadline_loads : Event
  deadline_reports : Bool → Event
  main_joins : Bool → Event
  exits : Event

abbrev pub is_finished : Thread → Bool
is_finished Thread.finished = true
is_finished Thread.reported = false
is_finished (Thread.draining peer) = false
is_finished (Thread.ended peer outcome) = false

-- Whether each thread can be joined.
abbrev pub all_finished : List Thread → Bool
all_finished [] = true
all_finished (t ∷ ts) = is_finished t && all_finished ts

-- `can_write` is whether serde writes an event.
module _ (can_write : DrainerEvent → Bool) where
  abbrev pub send_on : Bool → Bool → DrainerEvent → List DrainerEvent → Reporter
  send_on false written ev log = record { connected = false; log = log }
  send_on true true ev log = record { connected = true; log = ev ∷ log }
  send_on true false ev log = record { connected = false; log = log }

  unfoldable pub send_drainer_event : Bool → DrainerEvent → Reporter → Reporter
  send_drainer_event written ev r = if can_write ev then send_on r.connected written ev r.log else r

  abbrev pub act : ThreadStep → Thread → ℕ × Reporter → Thread × ℕ × Reporter
  act (ThreadStep.drained outcome) (Thread.draining peer) (n, r) = (Thread.ended peer outcome, n, r)
  act (ThreadStep.reports written) (Thread.ended peer outcome) (n, r) =
      (Thread.reported, n, send_drainer_event written (DrainerEvent.session_done peer outcome) r)
  act ThreadStep.subtracts Thread.reported (n, r) = (Thread.finished, fetch_sub_one n, r)
  act _ t (n, r) = (t, n, r)

  abbrev pub step_thread : ℕ → ThreadStep → Option Thread → Drainer → Drainer
  step_thread i e none x = x
  step_thread i e (some t) x =
      let (t', n, r) = act e t (x.remaining, x.reporter) in
      record x { threads = set x.threads i t'; remaining = n; reporter = r }

  abbrev pub load_deadline : Deadline → Drainer → Drainer
  load_deadline Deadline.sleeping x = record x { deadline = Deadline.loaded x.remaining }
  load_deadline (Deadline.loaded r) x = x
  load_deadline Deadline.over x = x

  abbrev pub report_deadline : Bool → Deadline → Drainer → Drainer
  report_deadline written (Deadline.loaded r) x = record x {
    deadline = Deadline.over;
    reporter = send_drainer_event written (DrainerEvent.deadline_exit r) x.reporter;
  }
  report_deadline written Deadline.sleeping x = x
  report_deadline written Deadline.over x = x

  abbrev pub join : Bool → Drainer → Drainer
  join written x =
      if not x.joined && all_finished x.threads
      then record x {
        joined = true;
        reporter = send_drainer_event written DrainerEvent.complete x.reporter;
      }
      else x

  -- The process ends by its main thread, or by the deadline's, each after its report.
  abbrev pub may_exit : Deadline → Bool → Bool
  may_exit Deadline.over joined = true
  may_exit Deadline.sleeping joined = joined
  may_exit (Deadline.loaded r) joined = joined

  abbrev pub on_event : Event → Drainer → Drainer
  on_event (Event.on_thread i e) x = step_thread i e (get_elem? x.threads i) x
  on_event Event.deadline_loads x = load_deadline x.deadline x
  on_event (Event.deadline_reports written) x = report_deadline written x.deadline x
  on_event (Event.main_joins written) x = join written x
  on_event Event.exits x = if may_exit x.deadline x.joined then record x { exited = true } else x

  unfoldable pub step : Event → Drainer → Drainer
  step e x = if x.exited then x else on_event e x

  -- The child with these sessions: whether it reaches the supervisor and can write the first event.
  unfoldable pub run_tls_drainer_child :
      {C : Type 0} → Bool → Bool → ℕ → ℕ → List (TlsHandoff C) → Drainer
  run_tls_drainer_child connected written pid generation handoffs = record {
    threads = map (λ h. Thread.draining h.peer_addr) handoffs;
    remaining = length handoffs;
    deadline = Deadline.sleeping;
    reporter =
        send_drainer_event written (DrainerEvent.hello "tls" pid generation (length handoffs))
          (record { connected = connected; log = [] });
    joined = false;
    exited = false;
  }

  -- The latest event is the first of the list.
  unfoldable pub after : Drainer → List Event → Drainer
  after x [] = x
  after x (e ∷ es) = step e (after x es)
