-- ===== src/Fault/Tests.antt =====
-- fault_inject.rs: the theorem at a concrete input.
use five_nines_echo.Base.{◌≡◌, String, List, [], ◌∷◌, arith}
use five_nines_echo.Fault.{FaultPointConfig, init}
use five_nines_echo.Fault.Budget.{fires, shots, configured, times, fires-configured}

abbrev decode_twice : List FaultPointConfig
decode_twice =
    record { name = "control.decode"; kind = "skip"; message = ""; trigger_budget = 2 }
    ∷ record { name = "health.bind"; kind = "panic"; message = "bind"; trigger_budget = 0 }
    ∷ []

abbrev calls : List String
calls = "control.decode" ∷ "health.bind" ∷ "control.decode" ∷ "control.decode" ∷ []

fires-configured_example :
    fires "control.decode" calls (init decode_twice)
    ≡ shots (configured "control.decode" decode_twice) (times "control.decode" calls)
fires-configured_example = fires-configured "control.decode" calls decode_twice (omega arith)
