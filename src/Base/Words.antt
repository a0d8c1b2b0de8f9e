-- ===== src/Base/Words.antt =====
-- Machine words, and `std::time::Duration` as a number of nanoseconds.
use Prim.Native.Nat.{ℕ, ◌*◌, ◌/◌, ◌%◌, min}

-- Unsigned arithmetic of a release build wraps.
abbrev pub u32 : ℕ → ℕ
u32 n = n % 4294967296

abbrev pub u64 : ℕ → ℕ
u64 n = n % 18446744073709551616

abbrev pub u32_max : ℕ
u32_max = 4294967295

abbrev pub u64_max : ℕ
u64_max = 18446744073709551615

abbrev pub from_micros : ℕ → ℕ
from_micros n = n * 1000

abbrev pub from_millis : ℕ → ℕ
from_millis n = n * 1000000

abbrev pub from_secs : ℕ → ℕ
from_secs n = n * 1000000000

-- `duration_millis_u64`: whole milliseconds, saturating at the largest `u64`.
abbrev pub duration_millis_u64 : ℕ → ℕ
duration_millis_u64 d = min (d / 1000000) u64_max
