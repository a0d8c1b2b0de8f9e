-- ===== src/Watchdog/Backoff.antt =====
-- supervisor/watchdog.rs: what a history of spawns, adoptions and exits does to one role's state.
use native.Mathlib.Nat.{pow-suc}
use five_nines_echo.Base.{
  ℕ, suc, ◌-◌, ◌*◌, ◌^◌, ◌≤◌, ◌<◌, min, ◌≡◌, refl, Option, none, some, List, [], ◌∷◌, ltb,
  if◌then◌else◌, length, arith,
}
use five_nines_echo.Watchdog.{
  WatchdogState, ExitStatus, new, apply_exit, is_commit, record_spawn, record_adoption, record_exit,
  watchdog_initial_backoff, watchdog_max_backoff, watchdog_healthy_uptime,
}

-- What happens to a role, with the clocks' readings: a spawn (instant, wall clock), an adoption, an
-- exit.
pub data Event : Type 0 where
  spawned : ℕ → ℕ → Event
  adopted : ℕ → Event
  exited : ℕ → ExitStatus → Event

unfoldable pub step : Event → WatchdogState → WatchdogState
step (spawned now unix_ms) s = record_spawn now unix_ms s
step (adopted now) s = record_adoption now s
step (exited now status) s = (record_exit now s status).0

-- The state after a history, newest event first.
unfoldable pub after : List Event → WatchdogState
unfolding step
after [] = new
after (e ∷ h) = step e (after h)

-- When the running worker started, by the newest spawn or adoption.
abbrev pub started : List Event → Option ℕ
started [] = none
started (spawned now unix_ms ∷ h) = some now
started (adopted now ∷ h) = some now
started (exited now status ∷ h) = started h

abbrev pub ran_for : ℕ → List Event → ℕ
ran_for now h = elim (started h) [ none ↦ 0 | some t ↦ now - t ]

-- The crashes since the last exit that was an upgrade commit or came after a healthy uptime.
abbrev pub streak : List Event → ℕ
streak [] = 0
streak (spawned now unix_ms ∷ h) = streak h
streak (adopted now ∷ h) = streak h
streak (exited now status ∷ h) =
    let rest = streak h in
    if is_commit status
    then 0
    else if ltb (ran_for now h) watchdog_healthy_uptime
    then suc rest
    else 0

abbrev pub spawns : List Event → ℕ
spawns [] = 0
spawns (spawned now unix_ms ∷ h) = suc (spawns h)
spawns (adopted now ∷ h) = spawns h
spawns (exited now status ∷ h) = spawns h

abbrev pub backoff_of : ℕ → ℕ
backoff_of n = min (watchdog_initial_backoff * 2 ^ n) watchdog_max_backoff

backoff_of-suc : (n : ℕ) → min (backoff_of n * 2) watchdog_max_backoff ≡ backoff_of (suc n)
backoff_of-suc n = omega (arith, pow-suc 2 n)

streak-le-length : (h : List Event) → streak h ≤ length h
streak-le-length [] = omega arith
streak-le-length (spawned now unix_ms ∷ h) = omega (arith, streak-le-length h)
streak-le-length (adopted now ∷ h) = omega (arith, streak-le-length h)
streak-le-length (exited now status ∷ h) = ground (arith, streak-le-length h)

spawns-le-length : (h : List Event) → spawns h ≤ length h
spawns-le-length [] = omega arith
spawns-le-length (spawned now unix_ms ∷ h) = omega (arith, spawns-le-length h)
spawns-le-length (adopted now ∷ h) = omega (arith, spawns-le-length h)
spawns-le-length (exited now status ∷ h) = omega (arith, spawns-le-length h)

-- The state that a history should lead to.
pub record Tracks (h : List Event) (s : WatchdogState) : Type 0 where
  pub counted : s.consecutive_fast_exits ≡ streak h
  pub backed_off : s.next_backoff ≡ backoff_of (streak h)
  pub since : s.last_spawned_at ≡ started h
  pub restarts : s.total_restarts ≡ spawns h

step-Tracks :
    (e : Event) (h : List Event) (s : WatchdogState)
    → length (e ∷ h) < 2 ^ 32
    → Tracks h s
    → Tracks (e ∷ h) (step e s)
unfolding step record_spawn record_adoption record_exit apply_exit
step-Tracks (spawned now unix_ms) h s b t = ground (arith, spawns-le-length h)
step-Tracks (adopted now) h s b t = ground arith
step-Tracks (exited now status) h s b t =
    ground (arith, streak-le-length h, backoff_of-suc (streak h))

-- After any history of fewer than 2^32 events, started from a fresh state, the counter is the number
-- of crashes since the last reset, the backoff is 200 ms doubled once for each of them but at most
-- 30 s, the uptime runs from the newest spawn or adoption, and the restarts are the spawns.
pub after-Tracks : (h : List Event) → length h < 2 ^ 32 → Tracks h (after h)
unfolding after
after-Tracks [] b = record { counted = refl; backed_off = refl; since = refl; restarts = refl }
after-Tracks (e ∷ h) b = step-Tracks e h (after h) b (after-Tracks h (omega arith))
