-- ===== src/Processor/Session/Tests.antt =====
-- A codec of lines that end in a newline, and runs of a session under it.
use five_nines_echo.Base.{
  ℕ, ◌≡◌, refl, inl, inr, List, [], ◌∷◌, ◌++◌, nat_beq, if◌then◌else◌, Bool-cases, arith,
}
use five_nines_echo.Handoff.{Bytes}
use five_nines_echo.Processor.Codec.{Frame, Codec, IsStreaming}
use five_nines_echo.Processor.Session.{Origin, Event, step, after}
use five_nines_echo.Processor.Session.Invisible.{IsSettled, hand_over-IsInvisible}

abbrev after_byte : ℕ → Frame → Frame
after_byte b (Frame.line l rest) = Frame.line (b ∷ l) rest
after_byte b Frame.pending = Frame.pending
after_byte b Frame.too_long = Frame.too_long

abbrev first_line : Bytes → Frame
first_line [] = Frame.pending
first_line (b ∷ bs) = if nat_beq b 10 then Frame.line [] bs else after_byte b (first_line bs)

abbrev last_line : Bytes → Frame
last_line [] = Frame.pending
last_line (b ∷ bs) = Frame.line (b ∷ bs) []

abbrev newline : Codec
newline = record { decode = first_line; decode_eof = last_line; encode = λ l. l ++ 10 ∷ [] }

abbrev grown : Bytes → Frame → Frame
grown more (Frame.line l rest) = Frame.line l (rest ++ more)
grown more Frame.pending = Frame.pending
grown more Frame.too_long = Frame.too_long

after_byte-line :
    (b : ℕ) (f g : Frame) (more l rest : Bytes)
    → ((m r : Bytes) → f ≡ Frame.line m r → g ≡ Frame.line m (r ++ more))
    → after_byte b f ≡ Frame.line l rest
    → after_byte b g ≡ Frame.line l (rest ++ more)
after_byte-line b (Frame.line m r) g more l rest h e = ground (arith, h m r refl)
after_byte-line b Frame.pending g more l rest h e = cc
after_byte-line b Frame.too_long g more l rest h e = cc

first_line-append :
    (buf more l rest : Bytes)
    → first_line buf ≡ Frame.line l rest
    → first_line (buf ++ more) ≡ Frame.line l (rest ++ more)
first_line-append [] more l rest e = cc
first_line-append (b ∷ bs) more l rest e = elim (Bool-cases (nat_beq b 10)) [
  | inl t ↦ ground arith
  | inr t ↦ rw t (
      after_byte-line b (first_line bs) (first_line (bs ++ more)) more l rest
        (λ m r p. first_line-append bs more m r p) (rw t at e))
]

newline-IsStreaming : IsStreaming newline
newline-IsStreaming = record { decode-append = first_line-append }

abbrev origin : Origin
origin = record { fd = 9; peer = "a"; connected_at_unix_ms = 0; trace_id = "t" }

-- "hi" and "yo" in one read, echoed whole.
abbrev whole : List Event
whole =
    Event.written 3
    ∷ Event.framed
    ∷ Event.written 3
    ∷ Event.framed
    ∷ Event.received (104 ∷ 105 ∷ 10 ∷ 121 ∷ 111 ∷ 10 ∷ [])
    ∷ []

-- The same in two reads, with an upgrade while the first echo is going out and one between the lines.
abbrev torn : List Event
torn =
    Event.written 3
    ∷ Event.framed
    ∷ Event.received (111 ∷ 10 ∷ [])
    ∷ Event.adopted
    ∷ Event.cancelled
    ∷ Event.written 2
    ∷ Event.adopted
    ∷ Event.cancelled
    ∷ Event.written 1
    ∷ Event.framed
    ∷ Event.received (104 ∷ 105 ∷ 10 ∷ 121 ∷ [])
    ∷ []

same_received :
    (after newline origin [] whole).wire.received ≡ (after newline origin [] torn).wire.received
unfolding after step
same_received = refl

same_eof : (after newline origin [] whole).wire.eof ≡ (after newline origin [] torn).wire.eof
unfolding after step
same_eof = refl

whole-IsSettled : IsSettled newline (after newline origin [] whole)
unfolding after step
whole-IsSettled = record { written = refl; drained = refl }

torn-IsSettled : IsSettled newline (after newline origin [] torn)
unfolding after step
torn-IsSettled = record { written = refl; drained = refl }

hand_over-IsInvisible_example :
    (after newline origin [] whole).wire.sent ≡ (after newline origin [] torn).wire.sent
hand_over-IsInvisible_example =
    hand_over-IsInvisible newline origin origin newline-IsStreaming [] [] whole torn same_received
      same_eof whole-IsSettled torn-IsSettled
