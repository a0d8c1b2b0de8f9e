-- ===== src/Watchdog/Health.antt =====
-- supervisor/watchdog.rs: the health that is shown of a role.
use five_nines_echo.Base.{
  ℕ, zero, suc, ◌-◌, ◌^◌, ◌≤◌, ◌<◌, ◌≡◌, ◌↔◌, ◌⊎◌, inl, inr, Bool, true, false, none, some, List,
  refl, leb, if◌then◌else◌, length, arith,
}
use five_nines_echo.Control.{HealthState}
use five_nines_echo.Watchdog.{
  WatchdogState, ExitStatus, apply_exit, is_commit, is_failed, health_state,
  watchdog_initial_backoff, watchdog_healthy_uptime,
}
use five_nines_echo.Watchdog.Backoff.{Event, Tracks, streak, started, after, after-Tracks}

-- Whether the running worker has been up for the healthy threshold.
abbrev pub seasoned : ℕ → List Event → Bool
seasoned now h = elim (started h) [ none ↦ false | some t ↦ leb watchdog_healthy_uptime (now - t) ]

-- The health by the number of crashes since the last reset.
abbrev pub health_of : ℕ → Bool → HealthState
health_of zero up = HealthState.healthy
health_of (suc n) true = if leb 4 n then HealthState.failed else HealthState.healthy
health_of (suc n) false =
    if leb 4 n
    then HealthState.failed
    else if leb 3 n
    then HealthState.flapping
    else HealthState.backoff

health_state-Tracks :
    (now n : ℕ) (h : List Event) (s : WatchdogState)
    → streak h ≡ n
    → Tracks h s
    → health_state now s ≡ health_of n (seasoned now h)
unfolding health_state
health_state-Tracks now zero h s e t = ground arith
health_state-Tracks now (suc n) h s e t = ground arith

-- After any history of fewer than 2^32 events the health shown at any time is: healthy with no crash
-- since the last reset; failed from the fifth crash on, however long the worker has been up; between
-- these healthy once the worker is up for five seconds, else flapping at four and backoff below.
pub health_state-after :
    (now : ℕ) (h : List Event)
    → length h < 2 ^ 32
    → health_state now (after h) ≡ health_of (streak h) (seasoned now h)
health_state-after now h b = health_state-Tracks now (streak h) h (after h) refl (after-Tracks h b)

-- An upgrade commit, and likewise an exit after a healthy uptime, clears the role in every state: the
-- wait is 200 ms, and the role is healthy at any later time.
pub apply_exit-recovers :
    (s : WatchdogState) (status : ExitStatus) (uptime now : ℕ)
    → (is_commit status ≡ true) ⊎ (watchdog_healthy_uptime ≤ uptime)
    → ((apply_exit s status uptime).1 ≡ watchdog_initial_backoff)
      × (health_state now (apply_exit s status uptime).0 ≡ HealthState.healthy)
unfolding apply_exit health_state
apply_exit-recovers s status uptime now (inl h) = ground arith
apply_exit-recovers s status uptime now (inr h) = ground arith

-- The flag that a role has failed, as logged on an exit, agrees with the health shown at any time.
pub is_failed-health_state :
    (now : ℕ) (s : WatchdogState) → (is_failed s ≡ true) ↔ (health_state now s ≡ HealthState.failed)
unfolding is_failed health_state
is_failed-health_state now s = ground arith
