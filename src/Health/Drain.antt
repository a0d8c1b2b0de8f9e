-- ===== src/Health/Drain.antt =====
-- health.rs, `drain_headers`: no request is read for ever.
use five_nines_echo.Base.{
  ℕ, ◌+◌, ◌≤◌, ◌<◌, ◌≡◌, refl, inl, inr, true, List, [], ◌∷◌, ◌++◌, length, nat_beq, length-append,
  Bool-cases, arith,
}
use five_nines_echo.Health.{buffer_size, drain_headers}

-- A read fills at most the rest of the buffer.
abbrev pub Fits : ℕ → List (List ℕ) → Type 0
Fits total [] = Unit
Fits total (r ∷ reads) = (total + length r ≤ buffer_size) × Fits (total + length r) reads

-- Whatever a client sends, byte by byte if it likes, the drain returns by the time that it has read
-- once for each byte left in the buffer, if that is not full.
pub drain_headers_total :
    (buf : List ℕ) (reads : List (List ℕ))
    → length buf < buffer_size
    → Fits (length buf) reads
    → buffer_size ≤ length buf + length reads
    → drain_headers buf reads ≡ true
unfolding drain_headers
drain_headers_total buf [] room fits enough = ground arith
drain_headers_total buf ([] ∷ reads) room fits enough = refl
drain_headers_total buf ((b ∷ bs) ∷ reads) room fits enough =
    let size = length-append buf (b ∷ bs) in
    elim (Bool-cases (nat_beq (length (buf ++ b ∷ bs)) buffer_size)) [
      | inl full ↦ ground (arith, full)
      | inr partial ↦
          let left : length (buf ++ b ∷ bs) < buffer_size = ground (arith, size, fits.0) in
          let later : drain_headers (buf ++ b ∷ bs) reads ≡ true =
            drain_headers_total (buf ++ b ∷ bs) reads left (rw size fits.1) (omega (arith, size)) in
          ground (arith, later)
    ]
