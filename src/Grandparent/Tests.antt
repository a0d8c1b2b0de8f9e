-- ===== src/Grandparent/Tests.antt =====
-- grandparent.rs: the theorem at a concrete input.
use five_nines_echo.Base.{◌≡◌, List, [], ◌∷◌}
use five_nines_echo.Base.Words.{from_secs}
use five_nines_echo.Grandparent.{Outcome, run}
use five_nines_echo.Grandparent.Waits.{expected, run-expected}

abbrev restarts : List Outcome
restarts =
    Outcome.crashed (from_secs 1)
    ∷ Outcome.crashed (from_secs 2)
    ∷ Outcome.crashed (from_secs 61)
    ∷ Outcome.exited_cleanly
    ∷ []

run-expected_example : run restarts ≡ expected 0 restarts
run-expected_example = run-expected restarts
