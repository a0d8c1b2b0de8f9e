-- ===== src/Handoff.antt =====
-- handoff.rs: what an old image leaves to a new one, and how the two agree on it. A descriptor is its
-- number. Bytes are numbers.
pub mod Ready
use five_nines_echo.Base.{ℕ, String, Bool, ◌&&◌, Option, none, some, List, leb}

abbrev pub schema_version : ℕ
schema_version = 1

abbrev pub min_compatible_version : ℕ
min_compatible_version = 1

abbrev pub is_schema_compatible : ℕ → Bool
is_schema_compatible v = leb min_compatible_version v && leb v schema_version

abbrev pub default_schema_version : ℕ
default_schema_version = 1

pub data Transport : Type 0 where
  uds tcp : Transport

abbrev pub Bytes : Type 0
Bytes = List ℕ

pub record SessionHandoff : Type 0 where
  pub uds_fd : ℕ
  pub transport : Transport
  pub partial_line_bytes : Bytes
  pub pending_write_bytes : Bytes
  pub lines_echoed : ℕ
  pub connected_at_unix_ms : ℕ
  pub peer : String
  pub ident : Option String
  pub trace_id : String
  pub version : ℕ

abbrev pub resolve_upgrade_exe : Option String → String → String
resolve_upgrade_exe (some binary_path) cached_self = binary_path
resolve_upgrade_exe none cached_self = cached_self
