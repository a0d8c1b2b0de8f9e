-- ===== src/Control/Envelope/Window.antt =====
-- control.rs and handoff.rs: which envelopes are understood.
use Prim.Native.String.{◌++◌ as append}
use five_nines_echo.Base.{
  ℕ, String, ◌≡◌, refl, false, Option, none, some, nat_beq, if◌then◌else◌, arith,
}
use five_nines_echo.Handoff.{schema_version}
use five_nines_echo.Control.Envelope.{Json, Result, with_newline, envelope_line, parse_envelope}

-- What serde writes it reads back, with the version.
pub record IsJson {T : Type 0} (json : Json T) : Type 0 where
  pub from_str-to_string :
      (v : ℕ) (msg : T) (text : String)
      → json.to_string v msg ≡ some text
      → json.from_str text ≡ some (some v, msg)

with_newline-some :
    (o : Option String) (line : String)
    → with_newline o ≡ some line
    → (text : String) × (o ≡ some text) × (line ≡ append text "\n")
with_newline-some none line e = cc
with_newline-some (some text) line e = (text, refl, cc)

module _ {T : Type 0} (json : Json T) (law : IsJson json) where
  -- Where serde reads back what it writes and no fault is injected: a message that is written as a line
  -- is read back from the line without its newline; a text that serde writes for a message under some
  -- version is read back as the message if the version is 1, and refused with the version otherwise;
  -- and a text with the message and no version is read as the message.
  pub parse_envelope-envelope_line :
      (msg : T) (v : ℕ) (line stamped bare : String)
      → envelope_line json msg ≡ some line
      → json.to_string v msg ≡ some stamped
      → json.from_str bare ≡ some (none, msg)
      → ((text : String) × (line ≡ append text "\n")
          × (parse_envelope json false text ≡ Result.ok msg))
        × (parse_envelope json false stamped
            ≡ (if nat_beq v 1 then Result.ok msg else Result.incompatible v))
        × (parse_envelope json false bare ≡ Result.ok msg)
  unfolding envelope_line parse_envelope
  parse_envelope-envelope_line msg v line stamped bare e f g =
      let (text, written, shape) = with_newline-some (json.to_string schema_version msg) line e in
      (
        (text, shape, rw (law.from_str-to_string schema_version msg text written) refl),
        rw (law.from_str-to_string v msg stamped f) (ground arith),
        rw g refl,
      )
