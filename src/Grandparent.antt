-- ===== src/Grandparent.antt =====
-- grandparent.rs: the process above the supervisor, which starts it again when it crashes. How each
-- supervisor ended, and after how long, is an argument; the spawn itself and the kills are I/O.
pub mod Waits
mod Tests
use five_nines_echo.Base.{ℕ, ◌*◌, min, List, [], ◌∷◌, ltb, if◌then◌else◌}
use five_nines_echo.Base.Words.{from_millis, from_secs}

abbrev pub min_backoff : ℕ
min_backoff = from_millis 500

abbrev pub max_backoff : ℕ
max_backoff = from_secs 30

abbrev pub healthy_uptime : ℕ
healthy_uptime = from_secs 60

-- A signal that is passed on, a clean exit, or a crash after an uptime.
pub data Outcome : Type 0 where
  signaled exited_cleanly : Outcome
  crashed : ℕ → Outcome

-- What the loop does between two supervisors: it kills the old one's group and sleeps.
pub data Action : Type 0 where
  stop : Action
  kill_and_sleep : ℕ → Action

abbrev reset : ℕ → ℕ → ℕ
reset uptime backoff = if ltb healthy_uptime uptime then min_backoff else backoff

abbrev pub turn : ℕ → Outcome → ℕ × Action
turn backoff Outcome.signaled = (backoff, Action.stop)
turn backoff Outcome.exited_cleanly = (backoff, Action.stop)
turn backoff (Outcome.crashed uptime) =
    let b = reset uptime backoff in (min (b * 2) max_backoff, Action.kill_and_sleep b)

-- Nothing is started after a stop. An error of the start or the wait ends the loop too: the list of
-- outcomes stops there.
abbrev proceed : Action → List Action → List Action
proceed Action.stop rest = Action.stop ∷ []
proceed (Action.kill_and_sleep d) rest = Action.kill_and_sleep d ∷ rest

unfoldable pub run_from : ℕ → List Outcome → List Action
run_from backoff [] = []
run_from backoff (o ∷ os) = let t = turn backoff o in proceed t.1 (run_from t.0 os)

unfoldable pub run : List Outcome → List Action
run os = run_from min_backoff os
