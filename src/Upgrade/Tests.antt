-- ===== src/Upgrade/Tests.antt =====
-- supervisor/admin.rs: runs of a rolling upgrade, and the theorems at concrete inputs.
use five_nines_echo.Base.{
  ℕ, String, string_key, ◌==◌, ◌≡◌, refl, true, false, none, some, List, [], ◌∷◌, if◌then◌else◌,
}
use five_nines_echo.Base.Words.{from_secs}
use five_nines_echo.Control.{HealthState, WorkerStatus}
use five_nines_echo.Metrics.{new}
use five_nines_echo.Upgrade.{
  RollingUpgradeRequest, UpgradePoll, CanaryPoll, RoleRun, await_generation, observe, walk,
  upgrade_one, canary_observe, targets, rolling_upgrade,
}
use five_nines_echo.Upgrade.Canary.{verdict, first_worse, window, closes, observe-verdict}
use five_nines_echo.Upgrade.Walk.{Walks, rolling_upgrade-Walks}
use five_nines_echo.Upgrade.Counted.{Counts, rolling_upgrade-Counts}

abbrev status_at : ℕ → WorkerStatus
status_at generation = record {
  role = "any";
  pid = 1;
  generation = generation;
  started_at_unix_ms = 0;
  in_flight = 0;
  listener_addr = none;
  rate_limiter_stats = none;
}

abbrev polls : List UpgradePoll
polls =
    record { now = 0; status = some (status_at 1) }
    ∷ record { now = from_secs 1; status = none }
    ∷ record { now = from_secs 2; status = some (status_at 2) }
    ∷ []

abbrev looks : List CanaryPoll
looks =
    record { now = 0; state = HealthState.healthy }
    ∷ record { now = from_secs 1; state = HealthState.backoff }
    ∷ record { now = from_secs 3; state = HealthState.failed }
    ∷ []

-- The scanner does not answer.
abbrev runs : String → RoleRun
runs role = record {
  baseline_state = HealthState.backoff;
  pre = if role == "scanner" then none else some (status_at 1);
  sent_at = 0;
  polls = polls;
  canary_at = 0;
  canary_polls = looks;
}

abbrev request : RollingUpgradeRequest
request = record { binary_path = none; include_tls = true; canary_secs = some 2; only_role = none }

sent_to_two :
    (rolling_upgrade false request runs new).sent ≡ ("processor", none) ∷ ("plain", none) ∷ []
unfolding rolling_upgrade walk upgrade_one await_generation canary_observe observe
sent_to_two = refl

observe-verdict_example :
    observe (from_secs 2) HealthState.healthy looks
    ≡ verdict
        (first_worse HealthState.healthy (window (from_secs 2) looks))
        (closes (from_secs 2) looks)
observe-verdict_example = observe-verdict (from_secs 2) HealthState.healthy looks

rolling_upgrade-Walks_example :
    Walks request runs (targets request) (rolling_upgrade false request runs new)
rolling_upgrade-Walks_example = rolling_upgrade-Walks request runs new

rolling_upgrade-Counts_example :
    let w = rolling_upgrade false request runs new in
    Counts request runs ("processor" ∷ "plain" ∷ "scanner" ∷ "tls" ∷ []) w.ok new w.counters
rolling_upgrade-Counts_example =
    rolling_upgrade-Counts request runs ("processor" ∷ "plain" ∷ "scanner" ∷ "tls" ∷ []) new refl
