-- ===== src/Admin/Tests.antt =====
-- supervisor/admin.rs: the theorems at concrete inputs.
use five_nines_echo.Base.{ℕ, ◌≡◌, refl, false, none, some, [], ◌∷◌}
use five_nines_echo.Auth.{from_uids}
use five_nines_echo.Control.{ControlMsg, HealthState}
use five_nines_echo.Link.{WorkerLink, default}
use five_nines_echo.Metrics.{new}
use five_nines_echo.Watchdog.{watchdogs_init}
use five_nines_echo.Admin.{AdminState, World, handle_admin_request}

abbrev linked : ℕ → WorkerLink
linked conn = record default { writer = some conn; conn_epoch = 1 }

-- The scanner is not connected.
abbrev running : AdminState
running = record {
  links = record { processor = linked 0; plain = linked 1; tls = linked 2; scanner = default };
  watchdogs = watchdogs_init;
  upgrade_counters = new;
  allow = from_uids (0 ∷ []);
  upgrade_lock = false;
}

abbrev world : World
world = record {
  now = 0;
  statuses = λ role. none;
  configured_uids = none;
  effective_uid = 0;
  runs = λ role. record {
    baseline_state = HealthState.healthy;
    pre = none;
    sent_at = 0;
    polls = [];
    canary_at = 0;
    canary_polls = [];
  };
}

processor_last :
    (handle_admin_request world running (ControlMsg.shutdown 2000)).written
    ≡ ("plain", 1, ControlMsg.shutdown 2000)
      ∷ ("tls", 2, ControlMsg.shutdown 2000)
      ∷ ("processor", 0, ControlMsg.shutdown 500)
      ∷ []
unfolding handle_admin_request
processor_last = refl
