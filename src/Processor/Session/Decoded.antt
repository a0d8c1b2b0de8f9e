-- ===== src/Processor/Session/Decoded.antt =====
-- processor.rs, `echo_loop`: the lines that the decoder takes from the bytes of a session.
use mathlib.Core.List.{append_assoc}
use five_nines_echo.Base.{◌≡◌, refl, sym, ap, subst, ◌∙◌, Bool, true, false, List, [], ◌∷◌, ◌++◌}
use five_nines_echo.Handoff.{Bytes}
use five_nines_echo.Processor.Codec.{Frame, Codec, IsStreaming}
use five_nines_echo.Processor.Session.{next_frame, eof_frame}

module _ (C : Codec) where
  -- The lines that the decoder takes from the front of `b`, and what it leaves.
  pub data Decoded (eof : Bool) : Bytes → List Bytes → Bytes → Type 0 where
    stop : (b : Bytes) → Decoded eof b [] b
    line :
        (b l b' : Bytes) (ls : List Bytes) (r : Bytes)
        → next_frame C eof b ≡ Frame.line l b'
        → Decoded eof b' ls r
        → Decoded eof b (l ∷ ls) r

  unfoldable pub echoes : List Bytes → Bytes
  echoes [] = []
  echoes (l ∷ ls) = C.encode l ++ echoes ls

module _ (C : Codec) where
  pub echoes-append : (ls ms : List Bytes) → echoes C (ls ++ ms) ≡ echoes C ls ++ echoes C ms
  unfolding echoes
  echoes-append [] ms = refl
  echoes-append (l ∷ ls) ms =
      ap (λ b. C.encode l ++ b) (echoes-append ls ms)
      ∙ sym (append_assoc (C.encode l) (echoes C ls) (echoes C ms))

  -- One more line is decoded from what was left.
  pub Decoded-snoc :
      (eof : Bool) (b : Bytes) (ls : List Bytes) (r l r' : Bytes)
      → Decoded C eof b ls r
      → next_frame C eof r ≡ Frame.line l r'
      → Decoded C eof b (ls ++ l ∷ []) r'
  Decoded-snoc eof b _ _ l r' (stop _) e = line b l r' [] r' e (stop r')
  Decoded-snoc eof b _ r l r' (line _ m b' ls _ f d) e =
      line b m b' (ls ++ l ∷ []) r' f (Decoded-snoc eof b' ls r l r' d e)

  -- More bytes may arrive behind it.
  pub Decoded-append :
      (b : Bytes) (ls : List Bytes) (r more : Bytes)
      → IsStreaming C
      → Decoded C false b ls r
      → Decoded C false (b ++ more) ls (r ++ more)
  Decoded-append b _ _ more streaming (stop _) = stop (b ++ more)
  Decoded-append b _ r more streaming (line _ l b' ls _ f d) =
      line (b ++ more) l (b' ++ more) ls (r ++ more) (streaming.decode-append b more l b' f)
        (Decoded-append b' ls r more streaming d)

  pub Decoded-eof :
      (b : Bytes) (ls : List Bytes) (r : Bytes) → Decoded C false b ls r → Decoded C true b ls r
  Decoded-eof b _ _ (stop _) = stop b
  Decoded-eof b _ r (line _ l b' ls _ f d) =
      line b l b' ls r (ap (eof_frame C true b) f) (Decoded-eof b' ls r d)

  -- What is left when no more line can be taken, and the lines, are determined.
  pub Decoded-unique :
      (eof : Bool) (b : Bytes) (ls ms : List Bytes) (r r' : Bytes)
      → Decoded C eof b ls r
      → Decoded C eof b ms r'
      → next_frame C eof r ≡ Frame.pending
      → next_frame C eof r' ≡ Frame.pending
      → ls ≡ ms
  Decoded-unique eof b _ _ _ _ (stop _) (stop _) p q = refl
  Decoded-unique eof b _ _ _ r' (stop _) (line _ l b' ls _ f d) p q = cc
  Decoded-unique eof b _ _ r _ (line _ l b' ls _ f d) (stop _) p q = cc
  Decoded-unique eof b _ _ r r' (line _ l b' ls _ f d) (line _ m c' ms _ g d') p q =
      let rest : c' ≡ b' = cc in
      let same : l ≡ m = cc in
      let more : ls ≡ ms =
        Decoded-unique eof b' ls ms r r' d (subst (λ c. Decoded C eof c ms r') rest d') p q in
      cc
