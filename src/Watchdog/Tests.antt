-- ===== src/Watchdog/Tests.antt =====
-- supervisor/watchdog.rs: runs of the model on the inputs of the source's own tests, and the theorems
-- at concrete inputs.
use five_nines_echo.Base.{String, ◌≡◌, refl, some, List, [], ◌∷◌, arith, lookup, string_key}
use five_nines_echo.Base.Words.{from_millis, from_secs}
use five_nines_echo.Watchdog.{WatchdogState, ExitStatus, new, apply_exit, record_spawn, record_exit}
use five_nines_echo.Watchdog.Backoff.{Event, Tracks, after, after-Tracks}
use five_nines_echo.Watchdog.Roles.{table, lookup-table}

abbrev crash : ExitStatus
crash = record { code = some 1 }

abbrev commit : ExitStatus
commit = record { code = some 23 }

-- Three quick crashes, each one second after its spawn.
abbrev crashes : List Event
crashes =
    Event.exited (from_secs 22) crash
    ∷ Event.spawned (from_secs 21) 21000
    ∷ Event.exited (from_secs 12) crash
    ∷ Event.spawned (from_secs 11) 11000
    ∷ Event.exited (from_secs 2) crash
    ∷ Event.spawned (from_secs 1) 1000
    ∷ []

-- `fast_exits_double_the_backoff` of the source.
doubles : (after crashes).next_backoff ≡ from_millis 1600
unfolding after record_exit record_spawn apply_exit
doubles = refl

after-Tracks_example : Tracks crashes (after crashes)
after-Tracks_example = after-Tracks crashes (omega arith)

abbrev broken : WatchdogState
broken = record new { consecutive_fast_exits = 6 }

abbrev mixed : List (String × Event)
mixed =
    ("tls", Event.exited (from_secs 9) crash)
    ∷ ("plain", Event.exited (from_secs 2) crash)
    ∷ ("tls", Event.adopted (from_secs 1))
    ∷ []

lookup-table_example :
    lookup "plain" (table mixed) ≡ some (after (Event.exited (from_secs 2) crash ∷ []))
lookup-table_example = lookup-table "plain" mixed refl
