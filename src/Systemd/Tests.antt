-- ===== src/Systemd/Tests.antt =====
-- systemd.rs: the theorems at concrete inputs.
use five_nines_echo.Base.{List, [], ◌∷◌, String}
use five_nines_echo.Systemd.{Var, SdListeners, Env, WatchdogEnv}

abbrev names : List String
names = "plain" ∷ "tls" ∷ "plain" ∷ []

abbrev env : Env
env = record { listen_pid = Var.number 7; listen_fds = Var.number 4; names = names; self_pid = 7 }

abbrev sockets : SdListeners
sockets = ("tls", 3) ∷ ("plain", 4) ∷ ("plain", 5) ∷ []

abbrev half_minute : WatchdogEnv
half_minute = record { usec = Var.number 30000000; pid = Var.unset; self_pid = 7 }
