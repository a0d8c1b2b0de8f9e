-- ===== src/Supervisor/Tests.antt =====
-- supervisor.rs: a supervisor whose own environment still names the worker of an older one.
use Prim.Native.String.{◌++◌ as append, count}
use text.Mathlib.TextLemmas.{length-append}
use five_nines_echo.Base.{
  ℕ, zero, suc, ◌≡◌, refl, ap, String, string_key, ◌==◌, Option, none, some, if◌then◌else◌, arith,
}
use five_nines_echo.Supervisor.{
  Env, ControlFds, AdoptedState, Numbers, Adopted, successor_env, adopted_of, adopt_or_bind,
}
use five_nines_echo.Supervisor.Inherit.{IsText, adopted_of-successor_env}

abbrev strokes : ℕ → String
strokes zero = ""
strokes (suc n) = append "I" (strokes n)

abbrev parse : String → Option ℕ
parse text = some (count text)

count-strokes : (n : ℕ) → count (strokes n) ≡ n
count-strokes zero = refl
count-strokes (suc n) = omega (arith, length-append "I" (strokes n), count-strokes n)

abbrev numbers : Numbers
numbers = record { print = strokes; parse_i32 = parse; parse_u32 = parse; parse_u64 = parse }

numbers-IsText : IsText numbers
numbers-IsText = record {
  i32 = λ n b. ap some (count-strokes n);
  u32 = λ n b. ap some (count-strokes n);
  u64 = λ n b. ap some (count-strokes n);
}

abbrev fds : ControlFds
fds = record {
  admin = 3;
  processor_ctrl = 4;
  plain_ctrl = 5;
  tls_ctrl = 6;
  scanner_ctrl = 7;
  drainer = 8;
  spawner = 9;
  processor_listener = 10;
  plain_listener = 11;
  tls_listener = 12;
  scanner_listener = 13;
}

-- No scanner runs.
abbrev state : AdoptedState
state = record {
  processor = some 41;
  plain = some 42;
  tls = some 43;
  scanner = none;
  processor_gen = 2;
  plain_gen = 0;
  tls_gen = 1;
  scanner_gen = 5;
}

abbrev stale : Env
stale k = if k == "FDPASS_SCANNER_PID" then some "IIIIIII" else none

adopted_of-successor_env_example :
    adopted_of numbers (successor_env numbers fds state 0 14 stale)
    ≡ record state { scanner_gen = 0 }
adopted_of-successor_env_example =
    adopted_of-successor_env numbers numbers-IsText fds state 0 14 stale (record {
      pids = (omega arith, omega arith, omega arith, tt);
      gens = (omega arith, omega arith, omega arith, omega arith);
    })

-- The listeners are inherited.
inherits_plain :
    adopt_or_bind numbers none "FDPASS_LISTENER_PLAIN_FD" (
      successor_env numbers fds
        (record state { processor = none; plain = none; tls = none })
        0
        14
        stale)
    ≡ Adopted.inherited 11
unfolding adopt_or_bind successor_env
inherits_plain = ap Adopted.inherited (count-strokes 11)
