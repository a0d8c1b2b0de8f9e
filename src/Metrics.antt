-- ===== src/Metrics.antt =====
-- metrics.rs: the counters of rolling upgrades and the snapshot that is exported. A counter is an
-- atomic `u64`. Rendering to the Prometheus text format and writing the file are left out.
pub mod Parts
mod Tests
use five_nines_echo.Base.{
  ℕ, ◌+◌, String, string_key, ◌==◌, Bool, true, false, Option, none, some, List, [], ◌∷◌, ◌++◌, map,
  if◌then◌else◌, lookup, insert,
}
use five_nines_echo.Base.Words.{u64}
use five_nines_echo.Control.{HealthState, RateLimiterStats, RoleHealth, WorkerStatus}

abbrev pub CounterMap : Type 0
CounterMap = List (String × ℕ)

pub record UpgradeCounters : Type 0 where
  pub committed : CounterMap
  pub timed_out : CounterMap
  pub canary_aborted : CounterMap
  pub skipped : CounterMap

abbrev pub zero_map : CounterMap
zero_map = ("processor", 0) ∷ ("plain", 0) ∷ ("tls", 0) ∷ ("scanner", 0) ∷ []

abbrev pub new : UpgradeCounters
new = record {
  committed = zero_map;
  timed_out = zero_map;
  canary_aborted = zero_map;
  skipped = zero_map;
}

abbrev pub raise : String → CounterMap → Option ℕ → CounterMap
raise role m none = m
raise role m (some n) = insert role (u64 (n + 1)) m

-- `fetch_add` on the role's counter, if it has one.
abbrev pub fetch_add_one : String → CounterMap → CounterMap
fetch_add_one role m = raise role m (lookup role m)

abbrev pub incr_committed : String → UpgradeCounters → UpgradeCounters
incr_committed role c = record c { committed = fetch_add_one role c.committed }

abbrev pub incr_timed_out : String → UpgradeCounters → UpgradeCounters
incr_timed_out role c = record c { timed_out = fetch_add_one role c.timed_out }

abbrev pub incr_canary_aborted : String → UpgradeCounters → UpgradeCounters
incr_canary_aborted role c = record c { canary_aborted = fetch_add_one role c.canary_aborted }

abbrev pub incr_skipped : String → UpgradeCounters → UpgradeCounters
incr_skipped role c = record c { skipped = fetch_add_one role c.skipped }

pub record UpgradeMetric : Type 0 where
  pub role : String
  pub outcome : String
  pub value : ℕ

abbrev metrics_of : String → CounterMap → List UpgradeMetric
metrics_of outcome m =
    map {A = String × ℕ} (λ e. record { role = e.0; outcome = outcome; value = e.1 }) m

abbrev pub snapshot : UpgradeCounters → List UpgradeMetric
snapshot c =
    metrics_of "committed" c.committed
    ++ metrics_of "timed_out" c.timed_out
    ++ metrics_of "canary_aborted" c.canary_aborted
    ++ metrics_of "skipped" c.skipped

pub record RoleMetrics : Type 0 where
  pub role : String
  pub generation : ℕ
  pub in_flight : ℕ
  pub pid : ℕ
  pub health : HealthState
  pub consecutive_fast_exits : ℕ
  pub total_restarts : ℕ
  pub last_restart_at_unix_ms : Option ℕ
  pub rate_limiter_stats : Option RateLimiterStats

pub record MetricsSnapshot : Type 0 where
  pub supervisor_generation : ℕ
  pub supervisor_started_at_unix_ms : ℕ
  pub roles : List RoleMetrics
  pub upgrades : List UpgradeMetric

-- `statuses.iter().find(|s| s.role == role)`
abbrev pub find_role : String → List WorkerStatus → Option WorkerStatus
find_role role [] = none
find_role role (s ∷ ss) = let rest = find_role role ss in if s.role == role then some s else rest

abbrev pub role_metrics : RoleHealth → Option WorkerStatus → RoleMetrics
role_metrics h status = record {
  role = h.role;
  generation = elim status [ none ↦ 0 | some s ↦ s.generation ];
  in_flight = elim status [ none ↦ 0 | some s ↦ s.in_flight ];
  pid = elim status [ none ↦ 0 | some s ↦ s.pid ];
  health = h.state;
  consecutive_fast_exits = h.consecutive_fast_exits;
  total_restarts = h.total_restarts;
  last_restart_at_unix_ms = h.last_restart_at_unix_ms;
  rate_limiter_stats = elim status [ none ↦ none | some s ↦ s.rate_limiter_stats ];
}

unfoldable pub from_parts :
    ℕ → ℕ → List WorkerStatus → List RoleHealth → UpgradeCounters → MetricsSnapshot
from_parts supervisor_generation supervisor_started_at_unix_ms statuses healths upgrades = record {
  supervisor_generation = supervisor_generation;
  supervisor_started_at_unix_ms = supervisor_started_at_unix_ms;
  roles = map (λ h. role_metrics h (find_role h.role statuses)) healths;
  upgrades = snapshot upgrades;
}
