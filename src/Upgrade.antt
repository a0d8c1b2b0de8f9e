-- ===== src/Upgrade.antt =====
-- supervisor/admin.rs, `rolling_upgrade`: the walk over the workers that upgrades them one by one. The
-- answers of the workers, the health of their roles and the clock are arguments, as lists of what each
-- poll reads; a walk for which a list is too short has no answer yet.
pub mod Await
pub mod Canary
pub mod Walk
pub mod Counted
pub mod Targets
mod Tests
use Prim.Native.String.{◌++◌ as append}
use five_nines_echo.Base.{
  ℕ, ◌+◌, String, string_key, ◌==◌, Bool, true, false, ◌||◌, Option, none, some, List, [], ◌∷◌,
  ◌++◌, ltb, leb, if◌then◌else◌,
}
use five_nines_echo.Base.Words.{from_secs}
use five_nines_echo.Control.{AdminResp, HealthState, UpgradePhase, WorkerStatus}
use five_nines_echo.Metrics.{
  UpgradeCounters, incr_committed, incr_timed_out, incr_canary_aborted, incr_skipped,
}

pub record RollingUpgradeRequest : Type 0 where
  pub binary_path : Option String
  pub include_tls : Bool
  pub canary_secs : Option ℕ
  pub only_role : Option String

-- One turn of the loop that waits for the new generation: its instant, and the status it is answered.
pub record UpgradePoll : Type 0 where
  pub now : ℕ
  pub status : Option WorkerStatus

-- One turn of the canary's loop: the instant of its test, and the health it then reads.
pub record CanaryPoll : Type 0 where
  pub now : ℕ
  pub state : HealthState

-- What the walk meets at one role.
pub record RoleRun : Type 0 where
  pub baseline_state : HealthState
  pub pre : Option WorkerStatus
  pub sent_at : ℕ
  pub polls : List UpgradePoll
  pub canary_at : ℕ
  pub canary_polls : List CanaryPoll

abbrev pub poll_secs : String → ℕ
poll_secs role = if role == "tls" then 10 else 5

-- The generation reached, if it is above `pre_gen`.
abbrev pub rolled : ℕ → Option WorkerStatus → Option ℕ
rolled pre_gen none = none
rolled pre_gen (some s) = if ltb pre_gen s.generation then some s.generation else none

pub data Awaited : Type 0 where
  done : ℕ → Awaited
  timed_out : Awaited

abbrev await_answer : Option ℕ → Option Awaited → Option Awaited
await_answer (some g) rest = some (Awaited.done g)
await_answer none rest = rest

-- The loop of `upgrade_one`: first the deadline, then the status.
unfoldable pub await_generation : ℕ → ℕ → List UpgradePoll → Option Awaited
await_generation pre_gen deadline [] = none
await_generation pre_gen deadline (p ∷ ps) =
    let rest = await_generation pre_gen deadline ps in
    if ltb deadline p.now
    then some Awaited.timed_out
    else await_answer (rolled pre_gen p.status) rest

-- What a part of the walk leaves: its result if it has one, the counters, the notices to the admin
-- and the roles that were sent `Upgrade`, with the binary.
pub record Progress : Type 0 where
  pub ok : Option Bool
  pub counters : UpgradeCounters
  pub notices : List AdminResp
  pub sent : List (String × Option String)

abbrev pub step_notice :
    String → UpgradePhase → Option ℕ → Option ℕ → Bool → Option String → AdminResp
step_notice role phase before after ok message =
    AdminResp.upgrade_step role phase before after ok message

abbrev starting : String → ℕ → AdminResp
starting role pre_gen = step_notice role UpgradePhase.starting (some pre_gen) none true none

abbrev pub after_await : String → Option String → ℕ → UpgradeCounters → Option Awaited → Progress
after_await role path pre_gen c none = record {
  ok = none;
  counters = c;
  notices = starting role pre_gen ∷ [];
  sent = (role, path) ∷ [];
}
after_await role path pre_gen c (some Awaited.timed_out) = record {
  ok = some false;
  counters = incr_timed_out role c;
  notices =
      starting role pre_gen
      ∷ step_notice role UpgradePhase.timeout (some pre_gen) none false
          (some "worker did not reconnect with a new generation")
      ∷ [];
  sent = (role, path) ∷ [];
}
after_await role path pre_gen c (some (Awaited.done g)) = record {
  ok = some true;
  counters = incr_committed role c;
  notices =
      starting role pre_gen
      ∷ step_notice role UpgradePhase.done (some pre_gen) (some g) true none
      ∷ [];
  sent = (role, path) ∷ [];
}

abbrev pub after_query :
    String → Option String → RoleRun → UpgradeCounters → Option WorkerStatus → Progress
after_query role path run c none = record {
  ok = some false;
  counters = incr_skipped role c;
  notices =
      step_notice role UpgradePhase.skipped none none false (some "no control connection") ∷ [];
  sent = [];
}
after_query role path run c (some pre) =
    after_await role path pre.generation c
      (await_generation pre.generation (run.sent_at + from_secs (poll_secs role)) run.polls)

unfoldable pub upgrade_one : String → Option String → RoleRun → UpgradeCounters → Progress
upgrade_one role path run c = after_query role path run c run.pre

abbrev pub health_state_rank : HealthState → ℕ
health_state_rank HealthState.healthy = 0
health_state_rank HealthState.backoff = 1
health_state_rank HealthState.flapping = 2
health_state_rank HealthState.failed = 3

abbrev pub state_name : HealthState → String
state_name HealthState.healthy = "Healthy"
state_name HealthState.backoff = "Backoff"
state_name HealthState.flapping = "Flapping"
state_name HealthState.failed = "Failed"

-- The loop of `canary_observe`: the state that aborts it, if one does.
pub data Observed : Type 0 where
  clean : Observed
  regressed : HealthState → Observed

unfoldable pub observe : ℕ → HealthState → List CanaryPoll → Option Observed
observe deadline baseline [] = none
observe deadline baseline (p ∷ ps) =
    let rest = observe deadline baseline ps in
    if ltb p.now deadline
    then if ltb (health_state_rank baseline) (health_state_rank p.state)
      then some (Observed.regressed p.state)
      else rest
    else some Observed.clean

abbrev pub after_observe : String → UpgradeCounters → Option Observed → Progress
after_observe role c none = record { ok = none; counters = c; notices = []; sent = [] }
after_observe role c (some Observed.clean) = record {
  ok = some true;
  counters = c;
  notices = [];
  sent = [];
}
after_observe role c (some (Observed.regressed state)) = record {
  ok = some false;
  counters = incr_canary_aborted role c;
  notices =
      step_notice role UpgradePhase.canary_aborted none none false
        (some (append "watchdog state " (state_name state)))
      ∷ [];
  sent = [];
}

unfoldable pub canary_observe : String → ℕ → RoleRun → UpgradeCounters → Progress
canary_observe role secs run c =
    after_observe role c
      (observe (run.canary_at + from_secs secs) run.baseline_state run.canary_polls)

-- The second part runs on the counters of the first, if that has succeeded.
abbrev pub and_then : Progress → (UpgradeCounters → Progress) → Progress
and_then w next = elim w.ok [
  | none ↦ w
  | some false ↦ w
  | some true ↦
      let w' = next w.counters in
      record w' { notices = w.notices ++ w'.notices; sent = w.sent ++ w'.sent }
]

abbrev pub canary_part : String → Option ℕ → RoleRun → UpgradeCounters → Progress
canary_part role none run c = record { ok = some true; counters = c; notices = []; sent = [] }
canary_part role (some secs) run c = canary_observe role secs run c

abbrev pub upgrade_role : String → RollingUpgradeRequest → RoleRun → UpgradeCounters → Progress
upgrade_role role req run c =
    and_then (upgrade_one role req.binary_path run c)
      (λ c'. canary_part role req.canary_secs run c')

unfoldable pub walk :
    RollingUpgradeRequest → (String → RoleRun) → List String → UpgradeCounters → Progress
walk req runs [] c = record { ok = some true; counters = c; notices = []; sent = [] }
walk req runs (role ∷ roles) c =
    and_then (upgrade_role role req (runs role) c) (λ c'. walk req runs roles c')

abbrev pub all_targets : Bool → List String
all_targets include_tls =
    "processor" ∷ "plain" ∷ "scanner" ∷ (if include_tls then "tls" ∷ [] else [])

abbrev pub is_worker : String → Bool
is_worker role = role == "processor" || role == "plain" || role == "scanner" || role == "tls"

-- `none` is a role that no worker has.
abbrev pub targets_of : Bool → Option String → Option (List String)
targets_of include_tls none = some (all_targets include_tls)
targets_of include_tls (some only) = if is_worker only then some (only ∷ []) else none

abbrev pub targets : RollingUpgradeRequest → Option (List String)
targets req = targets_of req.include_tls req.only_role

abbrev pub refused : UpgradeCounters → Progress
refused c = record {
  ok = some false;
  counters = c;
  notices = AdminResp.upgrade_complete false ∷ [];
  sent = [];
}

-- The walk and its last notice.
abbrev pub completed : Progress → Progress
completed w = elim w.ok [
  | none ↦ w
  | some all_ok ↦ record w { notices = w.notices ++ AdminResp.upgrade_complete all_ok ∷ [] }
]

abbrev pub on_targets :
    RollingUpgradeRequest → (String → RoleRun) → UpgradeCounters → Option (List String) → Progress
on_targets req runs c none = refused c
on_targets req runs c (some roles) = completed (walk req runs roles c)

-- `locked`: another rolling upgrade holds the lock.
unfoldable pub rolling_upgrade :
    Bool → RollingUpgradeRequest → (String → RoleRun) → UpgradeCounters → Progress
rolling_upgrade locked req runs c =
    if locked then refused c else on_targets req runs c (targets req)
