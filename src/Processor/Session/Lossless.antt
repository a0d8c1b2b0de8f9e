-- ===== src/Processor/Session/Lossless.antt =====
-- processor.rs, `echo_loop`: what goes out is the echo of what came in, across every hand-over.
use mathlib.Core.List.{append-nil, append_assoc}
use five_nines_echo.Base.{
  ℕ, suc, ◌+◌, ◌≤◌, ◌≡◌, refl, sym, ap, ◌∙◌, Bool, true, false, List, [], ◌∷◌, ◌++◌, length,
  length-append, take, drop, take-drop, arith,
}
use five_nines_echo.Base.Words.{u64}
use five_nines_echo.Handoff.{Bytes, SessionHandoff}
use five_nines_echo.Processor.Session.Decoded.{
  Decoded, stop, echoes, echoes-append, Decoded-snoc, Decoded-append, Decoded-eof,
}
use five_nines_echo.Processor.Codec.{Frame, Codec, IsStreaming}
use five_nines_echo.Processor.Session.{
  Phase, Session, Origin, Stage, Life, Event, spawn_session, next_frame, on_frame, flushed,
  is_writing, run_session, adopt_session, step_stage, step, after,
}

-- What a stage has still to decode, and to write.
abbrev pub unread : Stage → Bytes
unread (Stage.running s) = s.read_buffer
unread (Stage.handed h) = h.partial_line_bytes

abbrev pub unsent : Stage → Bytes
unsent (Stage.running s) = s.write_buffer
unsent (Stage.handed h) = h.pending_write_bytes

-- Of `n` lines each is counted, or was interrupted, or is the one that is being sent.
abbrev CountedIn : Phase → ℕ → ℕ → ℕ → Type 0
CountedIn Phase.flushing c i n = c + i ≡ n
CountedIn Phase.waiting c i n = c + i ≡ n
CountedIn Phase.sending c i n = suc (c + i) ≡ n
CountedIn Phase.ended c i n = (c + i ≤ n) × (n ≤ suc (c + i))

-- The counter holds a number of lines that is counted so, as far as a word goes.
abbrev pub Counted : Stage → ℕ → ℕ → Type 0
Counted (Stage.running s) i n = (c : ℕ) × (s.counter ≡ u64 c) × CountedIn s.phase c i n
Counted (Stage.handed h) i n = (c : ℕ) × (h.lines_echoed ≡ u64 c) × (c + i ≡ n)

module _ (C : Codec) where
  abbrev pub IsLossless : Life → Type 0
  IsLossless x =
      (ls : List Bytes) × Decoded C x.wire.eof x.wire.received ls (unread x.stage)
      × (x.wire.sent ++ unsent x.stage ≡ echoes C ls)
      × Counted x.stage x.interrupted (length ls)

abbrev session : Bytes → Bytes → ℕ → Phase → Session
session r w c p = record { read_buffer = r; write_buffer = w; counter = c; phase = p }

abbrev life : Bytes → Bool → Bytes → Stage → ℕ → Life
life got eof sent st i = record {
  wire = record { received = got; eof = eof; sent = sent };
  stage = st;
  interrupted = i;
}

module _ (C : Codec) (o : Origin) (streaming : IsStreaming C) where
  received-IsLossless :
      (r w : Bytes) (c : ℕ) (p : Phase) (got : Bytes) (eof : Bool) (sent : Bytes) (i : ℕ)
      (more : Bytes)
      → let s = session r w c p in
        let x = life got eof sent (Stage.running s) i in
        IsLossless C x → IsLossless C (run_session C o x s (Event.received more))
  received-IsLossless r w c Phase.waiting got false sent i more (ls, d, e, n) =
      (ls, Decoded-append C got ls r more streaming d, e, n)
  received-IsLossless r w c Phase.waiting got true sent i more h = h
  received-IsLossless r w c Phase.flushing got eof sent i more h = h
  received-IsLossless r w c Phase.sending got eof sent i more h = h
  received-IsLossless r w c Phase.ended got eof sent i more h = h

  closed-Decoded :
      (eof : Bool) (b : Bytes) (ls : List Bytes) (r : Bytes)
      → Decoded C eof b ls r
      → Decoded C true b ls r
  closed-Decoded true b ls r d = d
  closed-Decoded false b ls r d = Decoded-eof C b ls r d

  one_more :
      (sent w l : Bytes) (ls : List Bytes)
      → sent ++ w ≡ echoes C ls
      → sent ++ (w ++ C.encode l) ≡ echoes C (ls ++ l ∷ [])
  unfolding echoes
  one_more sent w l ls e =
      sym (append_assoc sent w (C.encode l))
      ∙ ap (λ b. b ++ C.encode l) e
      ∙ ap (λ b. echoes C ls ++ b) (sym (append-nil (C.encode l)))
      ∙ sym (echoes-append C ls (l ∷ []))

  framed-IsLossless :
      (r w : Bytes) (c : ℕ) (got : Bytes) (eof : Bool) (sent : Bytes) (i : ℕ) (f : Frame)
      → next_frame C eof r ≡ f
      → let s = session r w c Phase.waiting in
        IsLossless C (life got eof sent (Stage.running s) i)
        → IsLossless C (life got eof sent (Stage.running (on_frame C eof f s)) i)
  framed-IsLossless r w c got eof sent i (Frame.line l r') f (ls, d, e, n) = (
    ls ++ l ∷ [],
    Decoded-snoc C eof got ls r l r' d f,
    one_more sent w l ls e,
    (n.0, n.1, omega (arith, n.2, length-append ls (l ∷ []))),
  )
  framed-IsLossless r w c got eof sent i Frame.too_long f (ls, d, e, n) =
      (ls, d, e, (n.0, n.1, (omega (arith, n.2), omega (arith, n.2))))
  framed-IsLossless r w c got true sent i Frame.pending f (ls, d, e, n) =
      (ls, d, e, (n.0, n.1, (omega (arith, n.2), omega (arith, n.2))))
  framed-IsLossless r w c got false sent i Frame.pending f h = h

  -- What went out and what is left are together what was there.
  written-sent :
      (k : ℕ) (sent w left b : Bytes)
      → drop k w ≡ left
      → sent ++ w ≡ b
      → (sent ++ take k w) ++ left ≡ b
  written-sent k sent w left b l e =
      append_assoc sent (take k w) left
      ∙ ap (λ t. sent ++ (take k w ++ t)) (sym l)
      ∙ ap (λ t. sent ++ t) (take-drop k w)
      ∙ e

  written-IsLossless :
      (r w : Bytes) (c : ℕ) (p : Phase) (got : Bytes) (eof : Bool) (sent : Bytes) (i k : ℕ)
      (left : Bytes)
      → drop k w ≡ left
      → is_writing p ≡ true
      → let s = session r w c p in
        IsLossless C (life got eof sent (Stage.running s) i)
        → IsLossless C (life got eof (sent ++ take k w) (Stage.running (flushed p left s)) i)
  written-IsLossless r w c Phase.sending got eof sent i k [] l t (ls, d, e, n) =
      (ls, d, written-sent k sent w [] _ l e, (suc n.0, omega (arith, n.1), omega (arith, n.2)))
  written-IsLossless r w c Phase.sending got eof sent i k (b ∷ left) l t (ls, d, e, n) =
      (ls, d, written-sent k sent w (b ∷ left) _ l e, n)
  written-IsLossless r w c Phase.flushing got eof sent i k [] l t (ls, d, e, n) =
      (ls, d, written-sent k sent w [] _ l e, n)
  written-IsLossless r w c Phase.flushing got eof sent i k (b ∷ left) l t (ls, d, e, n) =
      (ls, d, written-sent k sent w (b ∷ left) _ l e, n)
  written-IsLossless r w c Phase.waiting got eof sent i k left l t h = cc
  written-IsLossless r w c Phase.ended got eof sent i k left l t h = cc

  run-IsLossless :
      (r w : Bytes) (c : ℕ) (p : Phase) (got : Bytes) (eof : Bool) (sent : Bytes) (i : ℕ)
      (e : Event)
      → let s = session r w c p in
        let x = life got eof sent (Stage.running s) i in
        IsLossless C x → IsLossless C (run_session C o x s e)
  run-IsLossless r w c p got eof sent i (Event.received more) h =
      received-IsLossless r w c p got eof sent i more h
  run-IsLossless r w c p got eof sent i Event.closed (ls, d, e, n) =
      (ls, closed-Decoded eof got ls r d, e, n)
  run-IsLossless r w c Phase.waiting got eof sent i Event.framed h =
      framed-IsLossless r w c got eof sent i (next_frame C eof r) refl h
  run-IsLossless r w c Phase.flushing got eof sent i Event.framed h = h
  run-IsLossless r w c Phase.sending got eof sent i Event.framed h = h
  run-IsLossless r w c Phase.ended got eof sent i Event.framed h = h
  run-IsLossless r w c Phase.sending got eof sent i (Event.written k) h =
      written-IsLossless r w c Phase.sending got eof sent i k (drop k w) refl refl h
  run-IsLossless r w c Phase.flushing got eof sent i (Event.written k) h =
      written-IsLossless r w c Phase.flushing got eof sent i k (drop k w) refl refl h
  run-IsLossless r w c Phase.waiting got eof sent i (Event.written k) h = h
  run-IsLossless r w c Phase.ended got eof sent i (Event.written k) h = h
  run-IsLossless r w c Phase.sending got eof sent i Event.write_failed (ls, d, e, n) =
      (ls, d, e, (n.0, n.1, (omega (arith, n.2), omega (arith, n.2))))
  run-IsLossless r w c Phase.flushing got eof sent i Event.write_failed (ls, d, e, n) =
      (ls, d, e, (n.0, n.1, (omega (arith, n.2), omega (arith, n.2))))
  run-IsLossless r w c Phase.waiting got eof sent i Event.write_failed h = h
  run-IsLossless r w c Phase.ended got eof sent i Event.write_failed h = h
  run-IsLossless r w c Phase.sending got eof sent i Event.cancelled (ls, d, e, n) =
      (ls, d, e, (n.0, n.1, omega (arith, n.2)))
  run-IsLossless r w c Phase.waiting got eof sent i Event.cancelled (ls, d, e, n) =
      (ls, d, e, (n.0, n.1, omega (arith, n.2)))
  run-IsLossless r w c Phase.flushing got eof sent i Event.cancelled h = h
  run-IsLossless r w c Phase.ended got eof sent i Event.cancelled h = h
  run-IsLossless r w c p got eof sent i Event.adopted h = h

  adopt-IsLossless :
      (h : SessionHandoff) (w : Bytes) (got : Bytes) (eof : Bool) (sent : Bytes) (i : ℕ)
      → h.pending_write_bytes ≡ w
      → let x = life got eof sent (Stage.handed h) i in
        IsLossless C x
        → IsLossless C (
            life got eof sent
              (Stage.running (spawn_session h.partial_line_bytes w h.lines_echoed))
              i)
  adopt-IsLossless h [] got eof sent i same (ls, d, e, n) =
      (ls, d, ap (λ b. sent ++ b) (sym same) ∙ e, n)
  adopt-IsLossless h (b ∷ w) got eof sent i same (ls, d, e, n) =
      (ls, d, ap (λ b. sent ++ b) (sym same) ∙ e, n)

  handed-IsLossless :
      (h : SessionHandoff) (got : Bytes) (eof : Bool) (sent : Bytes) (i : ℕ) (e : Event)
      → let x = life got eof sent (Stage.handed h) i in
        IsLossless C x → IsLossless C (adopt_session x h e)
  handed-IsLossless h got eof sent i Event.adopted l =
      adopt-IsLossless h h.pending_write_bytes got eof sent i refl l
  handed-IsLossless h got eof sent i Event.closed (ls, d, e, n) =
      (ls, closed-Decoded eof got ls h.partial_line_bytes d, e, n)
  handed-IsLossless h got eof sent i e l = l

  step_stage-IsLossless :
      (got : Bytes) (eof : Bool) (sent : Bytes) (st : Stage) (i : ℕ) (e : Event)
      → let x = life got eof sent st i in IsLossless C x → IsLossless C (step_stage C o x st e)
  step_stage-IsLossless got eof sent (Stage.running s) i e l =
      run-IsLossless s.read_buffer s.write_buffer s.counter s.phase got eof sent i e l
  step_stage-IsLossless got eof sent (Stage.handed h) i e l = handed-IsLossless h got eof sent i e l

  step-IsLossless : (x : Life) (e : Event) → IsLossless C x → IsLossless C (step C o x e)
  unfolding step
  step-IsLossless x e l =
      step_stage-IsLossless x.wire.received x.wire.eof x.wire.sent x.stage x.interrupted e l

  pub after-IsLossless :
      (preamble_rest : Bytes) (es : List Event) → IsLossless C (after C o preamble_rest es)
  unfolding after echoes
  after-IsLossless preamble_rest [] = ([], stop preamble_rest, refl, (0, refl, refl))
  after-IsLossless preamble_rest (e ∷ es) =
      step-IsLossless (after C o preamble_rest es) e (after-IsLossless preamble_rest es)
