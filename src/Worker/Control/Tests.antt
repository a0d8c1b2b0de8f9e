-- ===== src/Worker/Control/Tests.antt =====
-- A worker that is asked for its status, loses its connection, and is then asked to upgrade.
use five_nines_echo.Base.{◌≡◌, refl, true, false, Option, none, some, List, [], ◌∷◌}
use five_nines_echo.Auth.{from_uids}
use five_nines_echo.Control.{ControlMsg}
use five_nines_echo.Worker.Control.{
  Actions, AcceptorActions, Circumstance, Ended, Line, react, acceptor_react, serve,
  run_control_client,
}
use five_nines_echo.Worker.Control.Once.{
  Ends, worker_count, acceptor_count, run_control_client-Once,
}

abbrev fine : Circumstance
fine = record { written = true; configured_uids = some (7 ∷ []) }

abbrev connections : List (Option (List Line))
connections =
    some (Line.message ControlMsg.status fine ∷ Line.unknown ∷ Line.undecodable ∷ [])
    ∷ some (
        Line.message ControlMsg.reload fine
        ∷ Line.message (ControlMsg.upgrade none false none none) fine
        ∷ Line.message (ControlMsg.shutdown 5) fine
        ∷ [])
    ∷ []

abbrev actions : Actions
actions = record { shutdown = false; upgrade = none; allow = from_uids []; reports = 0 }

abbrev acceptor_actions : AcceptorActions
acceptor_actions = record {
  shutdown = none;
  upgrade = none;
  drain = false;
  reload = 0;
  reports = 0;
}

upgrade_only : run_control_client (react 0) connections actions ≡ (
  record {
    shutdown = false;
    upgrade = some (record { binary_path = none });
    allow = from_uids (7 ∷ []);
    reports = 1;
  },
  Ended.by_message,
)
unfolding run_control_client serve
upgrade_only = refl

run_control_client-Once_example :
    let r = run_control_client (react 0) connections actions in
    let r' = run_control_client acceptor_react connections acceptor_actions in
    Ends worker_count r.1 r.0 × Ends acceptor_count r'.1 r'.0
run_control_client-Once_example =
    run_control_client-Once 0 connections actions acceptor_actions refl refl
