-- ===== src/Client/Tests.antt =====
-- admin.rs: a rolling upgrade that is typed, walked and reported.
use five_nines_echo.Base.{
  ℕ, zero, suc, String, string_key, ◌≡◌, refl, ap, true, false, Option, none, some, [], ◌∷◌, arith,
}
use five_nines_echo.Base.Words.{from_secs}
use five_nines_echo.Control.{HealthState, WorkerStatus}
use five_nines_echo.Auth.{from_uids}
use five_nines_echo.Link.{default}
use five_nines_echo.Metrics.{new}
use five_nines_echo.Watchdog.{watchdogs_init}
use five_nines_echo.Upgrade.{
  RollingUpgradeRequest, RoleRun, rolling_upgrade, walk, upgrade_one, await_generation,
  canary_observe, observe,
}
use five_nines_echo.Admin.{AdminState, World}
use five_nines_echo.Client.{run_upgrade}
use five_nines_echo.Client.Flags.{args_of}
use five_nines_echo.Client.Verdict.{serving, verdict, run_upgrade-told}

-- A number as so many strokes.
abbrev print : ℕ → String
print zero = String.[]
print (suc n) = String.◌∷◌ "I" (print n)

abbrev strokes : String → ℕ
strokes String.[] = 0
strokes (String.◌∷◌ c s) = suc (strokes s)

strokes-print : (n : ℕ) → strokes (print n) ≡ n
strokes-print zero = refl
strokes-print (suc n) = ap suc (strokes-print n)

abbrev parse : String → Option ℕ
parse s = some (strokes s)

parse-print : (n : ℕ) → parse (print n) ≡ some n
parse-print n = ap (λ k. some k) (strokes-print n)

abbrev request : RollingUpgradeRequest
request = record {
  binary_path = some "/opt/new";
  include_tls = true;
  canary_secs = some 3;
  only_role = some "plain";
}

abbrev status_at : ℕ → WorkerStatus
status_at generation = record {
  role = "any";
  pid = 1;
  generation = generation;
  started_at_unix_ms = 0;
  in_flight = 0;
  listener_addr = none;
  rate_limiter_stats = none;
}

abbrev run : RoleRun
run = record {
  baseline_state = HealthState.healthy;
  pre = some (status_at 1);
  sent_at = 0;
  polls = record { now = from_secs 1; status = some (status_at 2) } ∷ [];
  canary_at = 0;
  canary_polls = record { now = from_secs 4; state = HealthState.failed } ∷ [];
}

abbrev world : World
world = record {
  now = 0;
  statuses = λ role. none;
  configured_uids = none;
  effective_uid = 0;
  runs = λ role. run;
}

abbrev state : AdminState
state = record {
  links = record { processor = default; plain = default; tls = default; scanner = default };
  watchdogs = watchdogs_init;
  upgrade_counters = new;
  allow = from_uids (0 ∷ []);
  upgrade_lock = false;
}

walked : (rolling_upgrade false request world.runs new).ok ≡ some true
unfolding rolling_upgrade walk upgrade_one await_generation canary_observe observe
walked = refl

run_upgrade-told_example :
    run_upgrade parse (serving world state) (args_of print request) ≡ some (verdict true)
run_upgrade-told_example =
    run_upgrade-told print parse (λ n b. parse-print n) world state request true (omega arith)
      walked
