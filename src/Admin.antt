-- ===== src/Admin.antt =====
-- supervisor/admin.rs, `handle_admin_request`: one request of the admin command line. The workers'
-- answers, the reading of the configuration and what a rolling upgrade meets are arguments.
pub mod Broadcast
mod Tests
use five_nines_echo.Base.{
  ℕ, min, String, string_key, Bool, true, false, Option, none, some, List, [], ◌∷◌, ◌++◌,
  if◌then◌else◌,
}
use five_nines_echo.Auth.{PeerAllowlist, from_config}
use five_nines_echo.Control.{AdminResp, ControlMsg, RoleHealth, WorkerStatus}
use five_nines_echo.Link.{WorkerLink, send_drain, send_reload, send_shutdown, send_upgrade}
use five_nines_echo.Watchdog.{Watchdogs, watchdogs_snapshot}
use five_nines_echo.Metrics.{UpgradeCounters}
use five_nines_echo.Upgrade.{RollingUpgradeRequest, RoleRun, Progress, rolling_upgrade}

pub record WorkerControlLinks : Type 0 where
  pub processor : WorkerLink
  pub plain : WorkerLink
  pub tls : WorkerLink
  pub scanner : WorkerLink

pub record AdminState : Type 0 where
  pub links : WorkerControlLinks
  pub watchdogs : Watchdogs
  pub upgrade_counters : UpgradeCounters
  pub allow : PeerAllowlist
  -- whether a rolling upgrade holds `upgrade_lock`
  pub upgrade_lock : Bool

-- What the request meets outside: the clock, the statuses answered, the configured uids if the
-- configuration loads, the process's uid, and the runs of a rolling upgrade.
pub record World : Type 0 where
  pub now : ℕ
  pub statuses : String → Option WorkerStatus
  pub configured_uids : Option (List ℕ)
  pub effective_uid : ℕ
  pub runs : String → RoleRun

-- What is written to a worker: its role, its connection and the message.
abbrev pub Written : Type 0
Written = List (String × ℕ × ControlMsg)

pub record Reply : Type 0 where
  pub state : AdminState
  pub written : Written
  pub responses : List AdminResp

abbrev pub to_role : String → Option (ℕ × ControlMsg) → Written
to_role role none = []
to_role role (some (conn, msg)) = (role, conn, msg) ∷ []

abbrev pub collect : List (Option WorkerStatus) → List WorkerStatus
collect [] = []
collect (none ∷ os) = collect os
collect (some s ∷ os) = s ∷ collect os

abbrev reload_supervisor_allowlist : World → PeerAllowlist → PeerAllowlist
reload_supervisor_allowlist w allow = elim w.configured_uids [
  | none ↦ allow
  | some uids ↦ from_config w.effective_uid uids
]

-- The four sends hold the lock of their link one after the other; nothing stands between them here.
abbrev on_shutdown : ℕ → AdminState → Reply
on_shutdown grace_ms s =
    let plain = send_shutdown grace_ms s.links.plain in
    let tls = send_shutdown grace_ms s.links.tls in
    let scanner = send_shutdown (min grace_ms 500) s.links.scanner in
    let processor = send_shutdown (min grace_ms 500) s.links.processor in
    record {
      state = record s {
        links = record {
          processor = processor.0;
          plain = plain.0;
          tls = tls.0;
          scanner = scanner.0;
        };
      };
      written =
          to_role "plain" plain.1
          ++ to_role "tls" tls.1
          ++ to_role "scanner" scanner.1
          ++ to_role "processor" processor.1;
      responses = AdminResp.ok ∷ [];
    }

abbrev on_status : World → AdminState → Reply
on_status w s = record {
  state = s;
  written = [];
  responses =
      AdminResp.status
        (collect (
          w.statuses "processor"
          ∷ w.statuses "plain"
          ∷ w.statuses "tls"
          ∷ w.statuses "scanner"
          ∷ []))
        (watchdogs_snapshot w.now s.watchdogs)
      ∷ [];
}

abbrev on_drain : AdminState → Reply
on_drain s = record {
  state = s;
  written =
      to_role "plain" (send_drain s.links.plain).1 ++ to_role "tls" (send_drain s.links.tls).1;
  responses = AdminResp.ok ∷ [];
}

abbrev on_reload : World → AdminState → Reply
on_reload w s = record {
  state = record s { allow = reload_supervisor_allowlist w s.allow };
  written =
      to_role "processor" (send_reload s.links.processor).1
      ++ to_role "plain" (send_reload s.links.plain).1
      ++ to_role "tls" (send_reload s.links.tls).1
      ++ to_role "scanner" (send_reload s.links.scanner).1;
  responses = AdminResp.ok ∷ [];
}

-- A rolling upgrade answers by its notices. What it writes to the workers stands in its `Progress`; the
-- links change meanwhile by the events of `Link.Connections`.
abbrev on_upgrade : World → RollingUpgradeRequest → AdminState → Reply
on_upgrade w req s =
    let p = rolling_upgrade s.upgrade_lock req w.runs s.upgrade_counters in
    record {
      state = record s { upgrade_counters = p.counters };
      written = [];
      responses = p.notices;
    }

unfoldable pub handle_admin_request : World → AdminState → ControlMsg → Reply
handle_admin_request w s (ControlMsg.upgrade path include_tls canary_secs only_role) =
    on_upgrade w
      (record {
        binary_path = path;
        include_tls = include_tls;
        canary_secs = canary_secs;
        only_role = only_role;
      })
      s
handle_admin_request w s (ControlMsg.shutdown grace_ms) = on_shutdown grace_ms s
handle_admin_request w s ControlMsg.status = on_status w s
handle_admin_request w s ControlMsg.drain = on_drain s
handle_admin_request w s ControlMsg.reload = on_reload w s
