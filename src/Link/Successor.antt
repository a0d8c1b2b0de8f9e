-- ===== src/Link/Successor.antt =====
-- supervisor/worker.rs, `wait_for_successor` and `monitor_successor`: the loops that poll a link. What
-- each poll reads is an argument; a result of `none` is a loop that still polls after them.
pub mod Wait
pub mod Monitor
use five_nines_echo.Base.{
  ℕ, ◌+◌, ◌-◌, Bool, true, false, Option, none, some, List, [], ◌∷◌, ltb, leb, if◌then◌else◌,
}
use five_nines_echo.Base.Words.{from_millis, from_secs}

pub data SuccessorOutcome : Type 0 where
  adopted : ℕ → SuccessorOutcome
  timeout : SuccessorOutcome

pub data MonitorOutcome : Type 0 where
  readopted : ℕ → MonitorOutcome
  lost : MonitorOutcome

abbrev pub successor_wait_timeout : ℕ
successor_wait_timeout = from_secs 5

abbrev pub successor_loss_grace : ℕ
successor_loss_grace = from_secs 3

abbrev pub wait_interval : ℕ
wait_interval = from_millis 50

-- A reported generation above `old`.
abbrev pub newer : ℕ → Option ℕ → Option ℕ
newer old none = none
newer old (some seen) = if ltb old seen then some seen else none

-- The link's generation, and the instant at which the deadline is then tested.
pub record WaitPoll : Type 0 where
  pub seen : Option ℕ
  pub now : ℕ

abbrev wait_answer : ℕ → ℕ → Option ℕ → Option SuccessorOutcome → Option SuccessorOutcome
wait_answer deadline now (some g) rest = some (SuccessorOutcome.adopted g)
wait_answer deadline now none rest =
    if leb deadline now then some SuccessorOutcome.timeout else rest

unfoldable pub wait_for_successor : ℕ → ℕ → List WaitPoll → Option SuccessorOutcome
wait_for_successor old_gen deadline [] = none
wait_for_successor old_gen deadline (p ∷ ps) =
    wait_answer deadline p.now (newer old_gen p.seen) (wait_for_successor old_gen deadline ps)

-- What one poll reads of the link, and when.
pub record Poll : Type 0 where
  pub connected : Bool
  pub last_pid : Option ℕ
  pub last_gen : Option ℕ
  pub now : ℕ

pub record Watch : Type 0 where
  pub absent_since : Option ℕ
  pub current_pid : Option ℕ

abbrev or_keep : Option ℕ → Option ℕ → Option ℕ
or_keep none old = old
or_keep (some p) old = some p

-- The loop's match on the connection, when no newer generation is seen.
abbrev pub on_connection : ℕ → Poll → Bool → Option ℕ → Watch → Option MonitorOutcome × Watch
on_connection loss_grace p true since w =
    (none, record { absent_since = none; current_pid = or_keep p.last_pid w.current_pid })
on_connection loss_grace p false none w = (none, record w { absent_since = some p.now })
on_connection loss_grace p false (some t) w =
    (if leb loss_grace (p.now - t) then some MonitorOutcome.lost else none, w)

abbrev pub on_poll : ℕ → Poll → Watch → Option ℕ → Option MonitorOutcome × Watch
on_poll loss_grace p w (some g) = (some (MonitorOutcome.readopted g), w)
on_poll loss_grace p w none = on_connection loss_grace p p.connected w.absent_since w

abbrev pub monitor_poll : ℕ → ℕ → Poll → Watch → Option MonitorOutcome × Watch
monitor_poll monitored_gen loss_grace p w = on_poll loss_grace p w (newer monitored_gen p.last_gen)

abbrev pub or_rest :
    Option MonitorOutcome × Watch → Option MonitorOutcome × Watch → Option MonitorOutcome × Watch
or_rest (some outcome, w) rest = (some outcome, w)
or_rest (none, w) rest = rest

unfoldable pub monitor : ℕ → ℕ → Watch → List Poll → Option MonitorOutcome × Watch
monitor monitored_gen loss_grace w [] = (none, w)
monitor monitored_gen loss_grace w (p ∷ ps) =
    let r = monitor_poll monitored_gen loss_grace p w in
    let rest = monitor monitored_gen loss_grace r.1 ps in or_rest r rest

unfoldable pub monitor_successor : Option ℕ → ℕ → ℕ → List Poll → Option MonitorOutcome × Option ℕ
monitor_successor current_pid monitored_gen loss_grace polls =
    let r =
      monitor monitored_gen loss_grace (record { absent_since = none; current_pid = current_pid })
        polls in
    (r.0, (r.1).current_pid)
