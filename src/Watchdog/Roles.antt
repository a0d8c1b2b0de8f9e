-- ===== src/Watchdog/Roles.antt =====
-- supervisor/watchdog.rs: the table of the roles' watchdogs.
use native.Mathlib.Nat.{pow-suc}
use five_nines_echo.Base.{
  ℕ, zero, suc, ◌^◌, ◌≤◌, ◌<◌, String, ◌≡◌, refl, inl, inr, true, some, List, [], ◌∷◌, map,
  if◌then◌else◌, length, arith, lookup, contains_key, lookup-insert, ◌==◌, string_key, Bool-cases,
  All,
}
use five_nines_echo.Base.Words.{from_millis, from_secs}
use five_nines_echo.Control.{RoleHealth}
use five_nines_echo.Watchdog.{
  Watchdogs, WatchdogState, WatchdogEvent, new, watchdogs_init, roles, entry_or_default,
  record_watchdog_event, record_watchdog_exit, watchdogs_snapshot, snapshot,
}
use five_nines_echo.Watchdog.Backoff.{Event, backoff_of, step, streak, after, after-Tracks}

-- An event of one role, handled as the supervisor's tasks hand it to the table.
pub step_role : String × Event → Watchdogs → Watchdogs
step_role (role, Event.spawned now unix_ms) wd =
    record_watchdog_event now unix_ms wd role WatchdogEvent.spawn
step_role (role, Event.adopted now) wd = record_watchdog_event now 0 wd role WatchdogEvent.adoption
step_role (role, Event.exited now status) wd = (record_watchdog_exit now wd role status).0

-- The table after a history of all roles, newest event first.
pub table : List (String × Event) → Watchdogs
table [] = watchdogs_init
table (e ∷ h) = step_role e (table h)

-- The events of one role.
abbrev pub history : String → List (String × Event) → List Event
history r [] = []
history r ((role, e) ∷ h) = let rest = history r h in if role == r then e ∷ rest else rest

-- One event is a step of its role's entry, and nothing to the other roles.
lookup-step_role :
    (r role : String) (e : Event) (wd : Watchdogs)
    → lookup r (step_role (role, e) wd)
      ≡ (if role == r then some (step e (entry_or_default role wd)) else lookup r wd)
unfolding step_role step record_watchdog_event record_watchdog_exit
lookup-step_role r role (Event.spawned now unix_ms) wd = lookup-insert role r _ wd
lookup-step_role r role (Event.adopted now) wd = lookup-insert role r _ wd
lookup-step_role r role (Event.exited now status) wd = lookup-insert role r _ wd

init_lookup :
    (r : String) → contains_key r watchdogs_init ≡ true → lookup r watchdogs_init ≡ some new
init_lookup r h = ground arith

step_entry :
    (r role : String) (e : Event) (wd : Watchdogs) (s : WatchdogState)
    → (role == r) ≡ true
    → lookup r wd ≡ some s
    → lookup r (step_role (role, e) wd) ≡ some (step e s)
step_entry r role e wd s h k =
    ground (arith, lookup-step_role r role e wd, string_key.agrees role r)

-- The roles are independent: of each of the four seeded roles the table holds, after any history of
-- all of them, the state that this role's own events lead to.
pub lookup-table :
    (r : String) (h : List (String × Event))
    → contains_key r watchdogs_init ≡ true
    → lookup r (table h) ≡ some (after (history r h))
unfolding table after
lookup-table r [] k = init_lookup r k
lookup-table r ((role, e) ∷ h) k = elim (Bool-cases (role == r)) [
  | inl same ↦
      rw same (step_entry r role e (table h) (after (history r h)) same (lookup-table r h k))
  | inr other ↦ rw (lookup-step_role r role e (table h), other) (lookup-table r h k)
]

pub length-history : (r : String) (h : List (String × Event)) → length (history r h) ≤ length h
length-history r [] = omega arith
length-history r ((role, e) ∷ h) = ground (arith, length-history r h)

one-le-pow : (n : ℕ) → 1 ≤ 2 ^ n
one-le-pow zero = omega arith
one-le-pow (suc n) = omega (arith, pow-suc 2 n, one-le-pow n)

backoff_of-bounds : (n : ℕ) → (from_millis 200 ≤ backoff_of n) × (backoff_of n ≤ from_secs 30)
backoff_of-bounds n = omega (arith, one-le-pow n)

abbrev pub BackoffInRange : RoleHealth → Type 0
BackoffInRange r = (200 ≤ r.next_backoff_ms) × (r.next_backoff_ms ≤ 30000)

snapshot-BackoffInRange :
    (now : ℕ) (h : List Event) (role : String)
    → length h < 2 ^ 32
    → BackoffInRange (snapshot now (after h) role)
unfolding snapshot
snapshot-BackoffInRange now h role b =
    let t = after-Tracks h b in let c = backoff_of-bounds (streak h) in omega arith

pub watchdogs_snapshot-table :
    (now : ℕ) (h : List (String × Event))
    → watchdogs_snapshot now (table h) ≡ map (λ r. snapshot now (after (history r h)) r) roles
unfolding watchdogs_snapshot
watchdogs_snapshot-table now h = rw (
  lookup-table "processor" h refl,
  lookup-table "plain" h refl,
  lookup-table "tls" h refl,
  lookup-table "scanner" h refl,
)

-- After any history of fewer than 2^32 events, what the supervisor reports at any time is one entry
-- for each of the four roles, in their order, each with a next backoff of 200 ms to 30 s.
pub watchdogs_snapshot-BackoffInRange :
    (now : ℕ) (h : List (String × Event))
    → length h < 2 ^ 32
    → (map (λ r. r.role) (watchdogs_snapshot now (table h)) ≡ roles)
      × All BackoffInRange (watchdogs_snapshot now (table h))
unfolding snapshot
watchdogs_snapshot-BackoffInRange now h b =
    rw (watchdogs_snapshot-table now h)
      (refl, (in_range "processor", (in_range "plain", (in_range "tls", (in_range "scanner", tt)))))
  where
    in_range : (r : String) → BackoffInRange (snapshot now (after (history r h)) r)
    in_range r = snapshot-BackoffInRange now (history r h) r (omega (arith, length-history r h))
