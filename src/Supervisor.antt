-- ===== src/Supervisor.antt =====
-- supervisor.rs, supervisor/self_upgrade.rs and handoff.rs: what a supervisor leaves to its successor when
-- it replaces itself. An environment gives each variable's text, if it is set; numbers are written
-- and read by the standard library, which is an argument.
pub mod Inherit
mod Tests
use text.Mathlib.Text.{starts_with}
use five_nines_echo.Base.{
  ℕ, suc, ◌+◌, ◌^◌, ◌<◌, ◌≡◌, String, string_key, ◌==◌, Bool, true, false, ◌&&◌, ◌||◌, not, Option,
  none, some, if◌then◌else◌,
}
use five_nines_echo.Base.Words.{u64}
use five_nines_echo.Link.{WorkerLink}
use five_nines_echo.Admin.{WorkerControlLinks}

abbrev pub Env : Type 0
Env = String → Option String

abbrev pub set_var : String → String → Env → Env
set_var key text env = λ k. if k == key then some text else env k

abbrev pub is_preserved : String → Bool
is_preserved key = key == "FDPASS_CONFIG_PATH" || key == "FDPASS_LOG_FORMAT"

-- Each variable of the program's own is removed, but those that are preserved.
abbrev pub scrub_fdpass_env : Env → Env
scrub_fdpass_env env = λ k. if starts_with k "FDPASS_" && not (is_preserved k) then none else env k

pub record ControlFds : Type 0 where
  pub admin : ℕ
  pub processor_ctrl : ℕ
  pub plain_ctrl : ℕ
  pub tls_ctrl : ℕ
  pub scanner_ctrl : ℕ
  pub drainer : ℕ
  pub spawner : ℕ
  pub processor_listener : ℕ
  pub plain_listener : ℕ
  pub tls_listener : ℕ
  pub scanner_listener : ℕ

pub record AdoptedState : Type 0 where
  pub processor : Option ℕ
  pub plain : Option ℕ
  pub tls : Option ℕ
  pub scanner : Option ℕ
  pub processor_gen : ℕ
  pub plain_gen : ℕ
  pub tls_gen : ℕ
  pub scanner_gen : ℕ

pub record PidSlots : Type 0 where
  pub processor : Option ℕ
  pub plain : Option ℕ
  pub tls : Option ℕ
  pub scanner : Option ℕ

abbrev pub or_zero : Option ℕ → ℕ
or_zero none = 0
or_zero (some n) = n

-- The running workers, with the generation that each last reported.
unfoldable pub snapshot : PidSlots → WorkerControlLinks → AdoptedState
snapshot pids links = record {
  processor = pids.processor;
  plain = pids.plain;
  tls = pids.tls;
  scanner = pids.scanner;
  processor_gen = or_zero links.processor.last_generation;
  plain_gen = or_zero links.plain.last_generation;
  tls_gen = or_zero links.tls.last_generation;
  scanner_gen = or_zero links.scanner.last_generation;
}

-- Printing, and reading as `i32`, `u32` and `u64`.
pub record Numbers : Type 0 where
  pub print : ℕ → String
  pub parse_i32 : String → Option ℕ
  pub parse_u32 : String → Option ℕ
  pub parse_u64 : String → Option ℕ

abbrev pub and_parsed : (String → Option ℕ) → Option String → Option ℕ
and_parsed parse none = none
and_parsed parse (some text) = parse text

module _ (num : Numbers) where
  abbrev pub with_pid : String → String → Option ℕ → ℕ → Env → Env
  with_pid pid_key gen_key none generation env = env
  with_pid pid_key gen_key (some pid) generation env =
      set_var gen_key (num.print generation) (set_var pid_key (num.print pid) env)

  abbrev pub with_fds : ControlFds → Env → Env
  with_fds fds env = set_var "FDPASS_LISTENER_SCANNER_FD" (num.print fds.scanner_listener) (
      set_var "FDPASS_LISTENER_TLS_FD" (num.print fds.tls_listener) (
        set_var "FDPASS_LISTENER_PLAIN_FD" (num.print fds.plain_listener) (
          set_var "FDPASS_LISTENER_PROCESSOR_FD" (num.print fds.processor_listener) (
            set_var "FDPASS_CTRL_SPAWNER_FD" (num.print fds.spawner) (
              set_var "FDPASS_CTRL_DRAINER_FD" (num.print fds.drainer) (
                set_var "FDPASS_CTRL_SCANNER_FD" (num.print fds.scanner_ctrl) (
                  set_var "FDPASS_CTRL_TLS_FD" (num.print fds.tls_ctrl) (
                    set_var "FDPASS_CTRL_PLAIN_FD" (num.print fds.plain_ctrl) (
                      set_var "FDPASS_CTRL_PROCESSOR_FD" (num.print fds.processor_ctrl)
                        (set_var "FDPASS_CTRL_ADMIN_FD" (num.print fds.admin) env))))))))))

  abbrev pub with_pids : AdoptedState → Env → Env
  with_pids s env = with_pid "FDPASS_SCANNER_PID" "FDPASS_SCANNER_GEN" s.scanner s.scanner_gen (
      with_pid "FDPASS_TLS_PID" "FDPASS_TLS_GEN" s.tls s.tls_gen (
        with_pid "FDPASS_PLAIN_PID" "FDPASS_PLAIN_GEN" s.plain s.plain_gen
          (with_pid "FDPASS_PROCESSOR_PID" "FDPASS_PROCESSOR_GEN" s.processor s.processor_gen env)))

  -- The environment of the successor, from that of the supervisor.
  unfoldable pub successor_env : ControlFds → AdoptedState → ℕ → ℕ → Env → Env
  successor_env fds s generation ready_fd env = set_var "FDPASS_READY_FD" (num.print ready_fd) (
      set_var "FDPASS_SUP_GENERATION" (num.print (u64 (generation + 1)))
        (with_pids s (with_fds fds (scrub_fdpass_env env))))

  abbrev pub env_pid : String → Env → Option ℕ
  env_pid key env = and_parsed num.parse_u32 (env key)

  abbrev pub env_generation : String → Env → ℕ
  env_generation key env = or_zero (and_parsed num.parse_u64 (env key))

  -- What `run` takes over.
  unfoldable pub adopted_of : Env → AdoptedState
  adopted_of env = record {
    processor = env_pid "FDPASS_PROCESSOR_PID" env;
    plain = env_pid "FDPASS_PLAIN_PID" env;
    tls = env_pid "FDPASS_TLS_PID" env;
    scanner = env_pid "FDPASS_SCANNER_PID" env;
    processor_gen = env_generation "FDPASS_PROCESSOR_GEN" env;
    plain_gen = env_generation "FDPASS_PLAIN_GEN" env;
    tls_gen = env_generation "FDPASS_TLS_GEN" env;
    scanner_gen = env_generation "FDPASS_SCANNER_GEN" env;
  }

-- Where a listener comes from: systemd, the environment, or a new bind.
pub data Adopted : Type 0 where
  from_systemd inherited : ℕ → Adopted
  bad_variable binds : Adopted

abbrev inherit : Option ℕ → Adopted
inherit none = Adopted.bad_variable
inherit (some fd) = Adopted.inherited fd

abbrev from_variable : (String → Option ℕ) → Option String → Adopted
from_variable parse none = Adopted.binds
from_variable parse (some text) = inherit (parse text)

-- The first of the three that is there; a text that is no descriptor is an error.
unfoldable pub adopt_or_bind : Numbers → Option ℕ → String → Env → Adopted
adopt_or_bind num none key env = from_variable num.parse_i32 (env key)
adopt_or_bind num (some fd) key env = Adopted.from_systemd fd
