-- ===== src/Health/Tests.antt =====
-- health.rs: the theorems at concrete inputs.
use five_nines_echo.Base.{◌≡◌, ◌↔◌, ◌⊎◌, some, List, [], ◌∷◌, String, arith}
use five_nines_echo.Health.{handle}
use five_nines_echo.Health.Code.{Broken, handle-Broken}
use five_nines_echo.Watchdog.{roles, watchdogs_snapshot}
use five_nines_echo.Watchdog.Backoff.{Event}
use five_nines_echo.Watchdog.Roles.{table}

abbrev crash : String × Event
crash = ("scanner", Event.exited 0 (record { code = some 1 }))

abbrev crashes : List (String × Event)
crashes = crash ∷ crash ∷ crash ∷ crash ∷ crash ∷ []

handle-Broken_example :
    (((handle (watchdogs_snapshot 0 (table crashes))).code ≡ 503) ↔ Broken crashes roles)
    × (((handle (watchdogs_snapshot 0 (table crashes))).code ≡ 503)
        ⊎ ((handle (watchdogs_snapshot 0 (table crashes))).code ≡ 200))
handle-Broken_example = handle-Broken 0 crashes (omega arith)
