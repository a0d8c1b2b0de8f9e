-- ===== src/Processor/Session/Invisible.antt =====
-- processor.rs, `echo_loop`: a client cannot tell how often its session was handed over.
use mathlib.Core.List.{append-nil}
use five_nines_echo.Base.{◌≡◌, sym, ap, subst, ◌∙◌, List, [], ◌++◌}
use five_nines_echo.Handoff.{Bytes}
use five_nines_echo.Processor.Codec.{Frame, Codec, IsStreaming}
use five_nines_echo.Processor.Session.{Origin, Life, Event, next_frame, after}
use five_nines_echo.Processor.Session.Decoded.{Decoded, echoes, Decoded-unique}
use five_nines_echo.Processor.Session.Lossless.{unread, unsent, IsLossless, after-IsLossless}

module _ (C : Codec) where
  -- Nothing is left to write, and no line to decode.
  pub record IsSettled (x : Life) : Type 0 where
    pub written : unsent x.stage ≡ []
    pub drained : next_frame C x.wire.eof (unread x.stage) ≡ Frame.pending

  settled-sent :
      (x : Life) (ls : List Bytes)
      → IsSettled x
      → x.wire.sent ++ unsent x.stage ≡ echoes C ls
      → x.wire.sent ≡ echoes C ls
  settled-sent x ls q e =
      sym (append-nil x.wire.sent) ∙ ap (λ b. x.wire.sent ++ b) (sym q.written) ∙ e

  IsLossless-sent :
      (x y : Life)
      → IsLossless C x
      → IsLossless C y
      → x.wire.received ≡ y.wire.received
      → x.wire.eof ≡ y.wire.eof
      → IsSettled x
      → IsSettled y
      → x.wire.sent ≡ y.wire.sent
  IsLossless-sent x y (ls, d, e, n) (ms, d', e', n') same_bytes same_eof p q =
      let d'' : Decoded C x.wire.eof x.wire.received ms (unread y.stage) =
        subst (λ b. Decoded C x.wire.eof b ms (unread y.stage)) (sym same_bytes)
          (subst (λ z. Decoded C z y.wire.received ms (unread y.stage)) (sym same_eof) d') in
      let drained : next_frame C x.wire.eof (unread y.stage) ≡ Frame.pending =
        subst (λ z. next_frame C z (unread y.stage) ≡ Frame.pending) (sym same_eof) q.drained in
      let lines : ls ≡ ms =
        Decoded-unique C x.wire.eof x.wire.received ls ms (unread x.stage) (unread y.stage) d d''
          p.drained drained in
      settled-sent x ls p e ∙ ap (echoes C) lines ∙ sym (settled-sent y ms q e')

  -- Take two runs of a session, with any hand-overs in either, at any points and as many as one likes. If
  -- the same bytes were received in both, and the end of the stream in both or in neither, and both have
  -- nothing left to write and no line left to decode, then both have sent the same bytes. So a run with
  -- upgrades sends what the run without them does.
  pub hand_over-IsInvisible :
      (o o' : Origin) (streaming : IsStreaming C) (pre pre' : Bytes) (es es' : List Event)
      → let x = after C o pre es in
        let y = after C o' pre' es' in
        x.wire.received ≡ y.wire.received
        → x.wire.eof ≡ y.wire.eof
        → IsSettled x
        → IsSettled y
        → x.wire.sent ≡ y.wire.sent
  hand_over-IsInvisible o o' streaming pre pre' es es' =
      IsLossless-sent (after C o pre es) (after C o' pre' es')
        (after-IsLossless C o streaming pre es) (after-IsLossless C o' streaming pre' es')
