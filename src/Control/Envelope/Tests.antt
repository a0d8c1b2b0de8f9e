-- ===== src/Control/Envelope/Tests.antt =====
-- control.rs: envelopes of a shutdown.
use Prim.Native.String.{◌++◌ as append}
use five_nines_echo.Base.{
  ℕ, zero, suc, String, ◌≡◌, refl, ap, false, Option, none, some, nat_beq, if◌then◌else◌,
}
use five_nines_echo.Control.Envelope.{Json, Result, envelope_line, parse_envelope}
use five_nines_echo.Control.Envelope.Window.{IsJson, parse_envelope-envelope_line}

-- One message, whose text is a stroke, and one more for each of its version.
abbrev strokes : ℕ → String
strokes zero = String.[]
strokes (suc v) = String.◌∷◌ "I" (strokes v)

abbrev counted : String → ℕ
counted String.[] = 0
counted (String.◌∷◌ c s) = suc (counted s)

abbrev read : String → Option ℕ × Unit {0}
read String.[] = (none, tt)
read (String.◌∷◌ c s) = (some (counted s), tt)

abbrev json : Json (Unit {0})
json = record {
  to_string = λ v msg. some (String.◌∷◌ "I" (strokes v));
  from_str = λ text. some (read text);
}

counted-strokes : (v : ℕ) → counted (strokes v) ≡ v
counted-strokes zero = refl
counted-strokes (suc v) = ap suc (counted-strokes v)

json-IsJson : IsJson json
json-IsJson = record {
  from_str-to_string = λ v msg text e.
      let same : text ≡ String.◌∷◌ "I" (strokes v) = cc in rw (same, counted-strokes v) refl;
}

line_of : envelope_line json tt ≡ some "II\n"
unfolding envelope_line
line_of = refl

parse_envelope-envelope_line_example :
    ((text : String) × (◌≡◌ {A = String} "II\n" (append text "\n"))
      × (parse_envelope json false text ≡ Result.ok tt))
    × (parse_envelope json false "III"
        ≡ (if nat_beq 2 1 then Result.ok tt else Result.incompatible 2))
    × (parse_envelope json false String.[] ≡ Result.ok tt)
parse_envelope-envelope_line_example =
    parse_envelope-envelope_line json json-IsJson tt 2 "II\n" "III" String.[] line_of refl refl
