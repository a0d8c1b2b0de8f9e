-- ===== src/Control/Envelope.antt =====
-- control.rs: the versioned frame in which every message of the control plane goes.
pub mod Window
mod Tests
use Prim.Native.String.{◌++◌ as append}
use five_nines_echo.Base.{ℕ, String, Bool, true, false, Option, none, some, if◌then◌else◌}
use five_nines_echo.Handoff.{schema_version, default_schema_version, is_schema_compatible}

-- serde on envelopes of messages `T`: a text may leave the version out.
pub record Json (T : Type 0) : Type 0 where
  pub to_string : ℕ → T → Option String
  pub from_str : String → Option (Option ℕ × T)

pub record Envelope (T : Type 0) : Type 0 where
  pub version : ℕ
  pub msg : T

pub data Result (T : Type 0) : Type 0 where
  ok : T → Result T
  bad_json : Result T
  incompatible : ℕ → Result T
  injected : Result T

abbrev pub version_of : Option ℕ → ℕ
version_of none = default_schema_version
version_of (some v) = v

abbrev with_newline : Option String → Option String
with_newline none = none
with_newline (some text) = some (append text "\n")

module _ {T : Type 0} where
  -- `faulted` is whether the fault point of the schema fires.
  abbrev pub into_msg : Bool → Envelope T → Result T
  into_msg true e = Result.injected
  into_msg false e =
      if is_schema_compatible e.version then Result.ok e.msg else Result.incompatible e.version

  abbrev of_text : Bool → Option (Option ℕ × T) → Result T
  of_text faulted none = Result.bad_json
  of_text faulted (some (v, msg)) = into_msg faulted (record { version = version_of v; msg = msg })

  unfoldable pub envelope_line : Json T → T → Option String
  envelope_line json msg = with_newline (json.to_string schema_version msg)

  unfoldable pub parse_envelope : Json T → Bool → String → Result T
  parse_envelope json faulted text = of_text faulted (json.from_str text)
