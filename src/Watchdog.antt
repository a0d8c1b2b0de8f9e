-- ===== src/Watchdog.antt =====
-- supervisor/watchdog.rs: the crash cadence of each worker role, the backoff before a respawn, and
-- the health that is shown. Instants and durations are nanoseconds; the clocks are arguments.
pub mod Backoff
pub mod Health
pub mod Roles
mod Tests
use five_nines_echo.Base.{
  ℕ, zero, suc, ◌+◌, ◌-◌, ◌*◌, min, String, ◌≡◌, Bool, true, false, ◌&&◌, Option, none, some, List,
  [], ◌∷◌, map, ltb, leb, nat_beq, if◌then◌else◌, lookup, insert, string_key,
}
use five_nines_echo.Base.Words.{u32, u64, from_millis, from_secs, duration_millis_u64}
use five_nines_echo.Control.{HealthState, RoleHealth}

-- What the code reads of an exit status: the exit code, absent after a fatal signal.
pub record ExitStatus : Type 0 where
  pub code : Option ℕ

abbrev pub upgrade_commit_exit_code : ℕ
upgrade_commit_exit_code = 23

abbrev pub watchdog_initial_backoff : ℕ
watchdog_initial_backoff = from_millis 200

abbrev pub watchdog_max_backoff : ℕ
watchdog_max_backoff = from_secs 30

abbrev pub watchdog_healthy_uptime : ℕ
watchdog_healthy_uptime = from_secs 5

abbrev pub watchdog_flap_threshold : ℕ
watchdog_flap_threshold = 4

abbrev pub watchdog_fail_threshold : ℕ
watchdog_fail_threshold = 5

pub record WatchdogState : Type 0 where
  pub consecutive_fast_exits : ℕ
  pub next_backoff : ℕ
  pub last_spawned_at : Option ℕ
  pub total_restarts : ℕ
  pub last_restart_at_unix_ms : Option ℕ

-- `#[derive(Default)]`
abbrev pub default : WatchdogState
default = record {
  consecutive_fast_exits = 0;
  next_backoff = 0;
  last_spawned_at = none;
  total_restarts = 0;
  last_restart_at_unix_ms = none;
}

abbrev pub new : WatchdogState
new = record default { next_backoff = watchdog_initial_backoff }

unfoldable pub record_spawn : ℕ → ℕ → WatchdogState → WatchdogState
record_spawn now unix_ms s = record s {
  last_spawned_at = some now;
  total_restarts = u64 (s.total_restarts + 1);
  last_restart_at_unix_ms = some unix_ms;
}

unfoldable pub record_adoption : ℕ → WatchdogState → WatchdogState
record_adoption now s = record s { last_spawned_at = some now }

abbrev pub is_commit : ExitStatus → Bool
is_commit status = elim status.code [ none ↦ false | some c ↦ nat_beq c upgrade_commit_exit_code ]

-- The new state; the wait before the next spawn is its `next_backoff`.
abbrev apply_exit_state : WatchdogState → ExitStatus → ℕ → WatchdogState
apply_exit_state s status uptime =
    if is_commit status
    then record s { consecutive_fast_exits = 0; next_backoff = watchdog_initial_backoff }
    else if ltb uptime watchdog_healthy_uptime
    then record s {
      consecutive_fast_exits = u32 (s.consecutive_fast_exits + 1);
      next_backoff = min (s.next_backoff * 2) watchdog_max_backoff;
    }
    else record s { consecutive_fast_exits = 0; next_backoff = watchdog_initial_backoff }

unfoldable pub apply_exit : WatchdogState → ExitStatus → ℕ → WatchdogState × ℕ
apply_exit s status uptime = let s' = apply_exit_state s status uptime in (s', s'.next_backoff)

-- `Instant::elapsed` saturates at zero, as `-` does.
abbrev pub uptime_at : ℕ → WatchdogState → ℕ
uptime_at now s = elim s.last_spawned_at [ none ↦ 0 | some t ↦ now - t ]

unfoldable pub record_exit : ℕ → WatchdogState → ExitStatus → WatchdogState × ℕ
record_exit now s status = apply_exit s status (uptime_at now s)

abbrev pub up_long : ℕ → WatchdogState → Bool
up_long now s = elim s.last_spawned_at [
  | none ↦ false
  | some t ↦ leb watchdog_healthy_uptime (now - t)
]

pub health_state : ℕ → WatchdogState → HealthState
health_state now s =
    if leb watchdog_fail_threshold s.consecutive_fast_exits
    then HealthState.failed
    else if up_long now s
    then HealthState.healthy
    else if nat_beq s.consecutive_fast_exits 0
    then HealthState.healthy
    else if leb watchdog_flap_threshold s.consecutive_fast_exits
    then HealthState.flapping
    else HealthState.backoff

pub is_failed : WatchdogState → Bool
is_failed s = leb watchdog_fail_threshold s.consecutive_fast_exits

unfoldable pub snapshot : ℕ → WatchdogState → String → RoleHealth
snapshot now s role = record {
  role = role;
  state = health_state now s;
  consecutive_fast_exits = s.consecutive_fast_exits;
  next_backoff_ms = duration_millis_u64 s.next_backoff;
  total_restarts = s.total_restarts;
  last_restart_at_unix_ms = s.last_restart_at_unix_ms;
}

abbrev pub Watchdogs : Type 0
Watchdogs = List (String × WatchdogState)

abbrev pub roles : List String
roles = "processor" ∷ "plain" ∷ "tls" ∷ "scanner" ∷ []

abbrev pub watchdogs_init : Watchdogs
watchdogs_init = map (λ r. (r, new)) roles

pub data WatchdogEvent : Type 0 where
  spawn adoption : WatchdogEvent

-- `entry(role).or_default()`
abbrev pub entry_or_default : String → Watchdogs → WatchdogState
entry_or_default role wd = elim (lookup role wd) [ none ↦ default | some s ↦ s ]

abbrev on_event : ℕ → ℕ → WatchdogEvent → WatchdogState → WatchdogState
on_event now unix_ms WatchdogEvent.spawn s = record_spawn now unix_ms s
on_event now unix_ms WatchdogEvent.adoption s = record_adoption now s

pub record_watchdog_event : ℕ → ℕ → Watchdogs → String → WatchdogEvent → Watchdogs
record_watchdog_event now unix_ms wd role event =
    insert role (on_event now unix_ms event (entry_or_default role wd)) wd

-- The backoff, and what is logged of a fast exit: whether the role has failed, its count and health.
pub record_watchdog_exit :
    ℕ → Watchdogs → String → ExitStatus → Watchdogs × ℕ × Option (Bool × ℕ × HealthState)
record_watchdog_exit now wd role status =
    let (s, wait) = record_exit now (entry_or_default role wd) status in
    (
      insert role s wd,
      wait,
      (if ltb 0 s.consecutive_fast_exits
          then some (is_failed s, s.consecutive_fast_exits, health_state now s)
          else none),
    )

pub watchdogs_snapshot : ℕ → Watchdogs → List RoleHealth
watchdogs_snapshot now wd =
    map (λ r. elim (lookup r wd) [ none ↦ snapshot now new r | some s ↦ snapshot now s r ]) roles

pub watchdog_health_state : ℕ → Watchdogs → String → HealthState
watchdog_health_state now wd role = elim (lookup role wd) [
  | none ↦ HealthState.healthy
  | some s ↦ health_state now s
]
