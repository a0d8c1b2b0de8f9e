-- ===== src/Health/Code.antt =====
-- health.rs and supervisor/watchdog.rs: the status code, from the history of the roles.
use five_nines_echo.Base.{
  ℕ, zero, suc, ◌^◌, ◌≤◌, ◌<◌, ◌≡◌, ◌↔◌, ◌⊎◌, Bool, true, false, List, [], ◌∷◌, String, map, any,
  length, arith,
}
use five_nines_echo.Control.{RoleHealth}
use five_nines_echo.Health.{is_failed, has_failed, handle}
use five_nines_echo.Watchdog.{roles, snapshot, watchdogs_snapshot}
use five_nines_echo.Watchdog.Backoff.{Event, streak, after}
use five_nines_echo.Watchdog.Health.{health_of, seasoned, health_state-after}
use five_nines_echo.Watchdog.Roles.{table, history, length-history, watchdogs_snapshot-table}

-- A role of the list has crashed five times or more in a row.
abbrev pub Broken : List (String × Event) → List String → Type 0
Broken h [] = ⊥
Broken h (r ∷ rs) = (5 ≤ streak (history r h)) ⊎ Broken h rs

is_failed-health_of : (n : ℕ) (up : Bool) → (is_failed (health_of n up) ≡ true) ↔ (5 ≤ n)
is_failed-health_of zero up = ground arith
is_failed-health_of (suc n) true = ground arith
is_failed-health_of (suc n) false = ground arith

has_failed-snapshot :
    (now : ℕ) (h : List Event) (r : String)
    → length h < 2 ^ 32
    → (has_failed (snapshot now (after h) r) ≡ true) ↔ (5 ≤ streak h)
unfolding snapshot
has_failed-snapshot now h r b =
    rw (health_state-after now h b) (is_failed-health_of (streak h) (seasoned now h))

any-Broken :
    (now : ℕ) (h : List (String × Event)) (rs : List String)
    → length h < 2 ^ 32
    → (any has_failed (map (λ r. snapshot now (after (history r h)) r) rs) ≡ true) ↔ Broken h rs
any-Broken now h [] b = ground arith
any-Broken now h (r ∷ rs) b = ground (
  arith,
  has_failed-snapshot now (history r h) r (omega (arith, length-history r h)),
  any-Broken now h rs b,
)

handle-code :
    (snapshot : List RoleHealth) → ((handle snapshot).code ≡ 503) ↔ (any has_failed snapshot ≡ true)
unfolding handle
handle-code snapshot = ground arith

handle_codes :
    (snapshot : List RoleHealth) → ((handle snapshot).code ≡ 503) ⊎ ((handle snapshot).code ≡ 200)
unfolding handle
handle_codes snapshot = ground arith

-- After any history of fewer than 2^32 events, the endpoint answers 503 at any time exactly if some
-- role has crashed five times or more since its last reset, and 200 otherwise.
pub handle-Broken :
    (now : ℕ) (h : List (String × Event))
    → length h < 2 ^ 32
    → (((handle (watchdogs_snapshot now (table h))).code ≡ 503) ↔ Broken h roles)
      × (((handle (watchdogs_snapshot now (table h))).code ≡ 503)
          ⊎ ((handle (watchdogs_snapshot now (table h))).code ≡ 200))
handle-Broken now h b =
    let seen : List RoleHealth = map (λ r. snapshot now (after (history r h)) r) roles in
    rw (watchdogs_snapshot-table now h)
      (ground (arith, handle-code seen, any-Broken now h roles b), handle_codes seen)
