-- ===== src/Systemd.antt =====
-- systemd.rs: the listening sockets that systemd passes, and the watchdog that it is pinged by. The
-- environment is an argument: what `parse` makes of a variable, or that it is missing.
pub mod Listeners
pub mod Beacon
mod Tests
use five_nines_echo.Base.{
  ℕ, zero, suc, ◌+◌, ◌/◌, max, String, string_key, ◌==◌, ◌⊎◌, inl, inr, Bool, true, false, not,
  Option, none, some, List, [], ◌∷◌, ltb, nat_beq, if◌then◌else◌, get_elem?,
}
use five_nines_echo.Base.Words.{u64, from_micros, from_secs}

-- A variable that is to hold a number: missing, not a number, or a number.
pub data Var : Type 0 where
  unset unparsed : Var
  number : ℕ → Var

-- `None` where the variable is missing or does not parse.
abbrev pub parsed : Var → Option ℕ
parsed (Var.number n) = some n
parsed v = none

abbrev pub sd_listen_fds_start : ℕ
sd_listen_fds_start = 3

-- Names and descriptors, in order.
abbrev pub SdListeners : Type 0
SdListeners = List (String × ℕ)

pub record Env : Type 0 where
  pub listen_pid : Var
  -- a count that is not positive is 0 here
  pub listen_fds : Var
  -- `LISTEN_FDNAMES`, split at the colons
  pub names : List String
  pub self_pid : ℕ

abbrev or_unknown : Option String → String
or_unknown none = "unknown"
or_unknown (some name) = name

-- The descriptors from index `i` on, `count` of them.
abbrev pub adopt : List String → ℕ → ℕ → SdListeners
adopt names i zero = []
adopt names i (suc count) =
    (or_unknown (get_elem? names i), sd_listen_fds_start + i) ∷ adopt names (suc i) count

-- `none` is an error.
abbrev on_count : List String → Var → Option SdListeners
on_count names Var.unset = some []
on_count names Var.unparsed = none
on_count names (Var.number count) = some (adopt names 0 count)

abbrev on_pid : Env → Var → Option SdListeners
on_pid env Var.unset = some []
on_pid env Var.unparsed = none
on_pid env (Var.number pid) =
    if nat_beq pid env.self_pid then on_count env.names env.listen_fds else some []

unfoldable pub from_env : Env → Option SdListeners
from_env env = on_pid env env.listen_pid

abbrev or_later : String × ℕ → Option ℕ × SdListeners → Option ℕ × SdListeners
or_later entry (fd, rest) = (fd, entry ∷ rest)

unfoldable pub take_by_name : String → SdListeners → Option ℕ × SdListeners
take_by_name name [] = (none, [])
take_by_name name (entry ∷ rest) =
    let later = take_by_name name rest in
    if entry.0 == name then (some entry.1, rest) else or_later entry later

-- `WATCHDOG_USEC` and `WATCHDOG_PID`
pub record WatchdogEnv : Type 0 where
  pub usec : Var
  pub pid : Var
  pub self_pid : ℕ

abbrev pid_matches : ℕ → Var → Bool
pid_matches self_pid Var.unset = true
pid_matches self_pid Var.unparsed = false
pid_matches self_pid (Var.number pid) = nat_beq pid self_pid

abbrev enabled_usec : WatchdogEnv → Option ℕ → Option ℕ
enabled_usec env none = none
enabled_usec env (some usec) =
    if nat_beq usec 0 then none else if pid_matches env.self_pid env.pid then some usec else none

abbrev pub watchdog_usec : WatchdogEnv → Option ℕ
watchdog_usec env = enabled_usec env (parsed env.usec)

abbrev tick_of : Option ℕ → ℕ
tick_of none = from_secs 10
tick_of (some usec) = from_micros (max (usec / 4) 1)

abbrev pub beacon_tick_interval : WatchdogEnv → ℕ
beacon_tick_interval env = tick_of (watchdog_usec env)

abbrev pub ping_interval : ℕ → ℕ
ping_interval usec = from_micros (max (usec / 2) 1)

-- The beacon is a counter that wraps.
abbrev pub tick : ℕ → ℕ
tick beacon = u64 (beacon + 1)

-- The ping task from its second tick on: the beacon at each of its ticks, and whether it pings there.
unfoldable pub pings : ℕ → List ℕ → List Bool
pings last_seen [] = []
pings last_seen (now ∷ later) = not (nat_beq now last_seen) ∷ pings now later
