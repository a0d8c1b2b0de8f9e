-- ===== src/Acceptor/Bridge/Kept.antt =====
-- acceptor/tls_client.rs: what was read from one side and not written to the other.
use mathlib.Core.List.{append-nil, append_assoc}
use five_nines_echo.Base.{
  ℕ, ◌≡◌, refl, sym, ap, ◌∙◌, Bool, true, false, ◌&&◌, not, Option, none, some, List, [], ◌∷◌, ◌++◌,
  take, drop, take-drop, arith, Bool-cases, inl, inr,
}
use five_nines_echo.Handoff.{Bytes}
use five_nines_echo.Acceptor.Bridge.{
  BridgeExit, Phase, Direction, Copy, Side, Bridge, Event, after_write, copy_in, copy_direction,
  is_over, all_done, on_event, step_at, step, after,
}

-- The part of a frame that was read and is not written.
abbrev pub unwritten : Phase → Bytes
unwritten Phase.reading = []
unwritten (Phase.writing left) = left
unwritten Phase.stopped = []
unwritten (Phase.broken left) = left

abbrev pub IsKept : Direction → Type 0
IsKept d = d.given ++ unwritten d.phase ≡ d.taken

-- A bridge that has ended, and not by its grace, has both loops over.
abbrev pub Over : Option BridgeExit → Bool → Bridge → Type 0
Over none graced x = Unit
Over (some exit) true x = Unit
Over (some exit) false x = (is_over x.forth.phase ≡ true) × (is_over x.back.phase ≡ true)

pub record IsWhole (x : Bridge) : Type 0 where
  pub forth : IsKept x.forth
  pub back : IsKept x.back
  pub over : Over x.exit x.graced x

wrote-kept :
    (k : ℕ) (given left rest taken : Bytes)
    → drop k left ≡ rest
    → given ++ left ≡ taken
    → (given ++ take k left) ++ unwritten (after_write rest) ≡ taken
wrote-kept k given left [] taken r e =
    append_assoc given (take k left) []
    ∙ ap (λ t. given ++ (take k left ++ t)) (sym r)
    ∙ ap (λ t. given ++ t) (take-drop k left)
    ∙ e
wrote-kept k given left (b ∷ rest) taken r e =
    append_assoc given (take k left) (b ∷ rest)
    ∙ ap (λ t. given ++ (take k left ++ t)) (sym r)
    ∙ ap (λ t. given ++ t) (take-drop k left)
    ∙ e

direction : Bytes → Bytes → Phase → Direction
direction taken given phase = record { taken = taken; given = given; phase = phase }

copy_in-IsKept :
    (taken given : Bytes) (p : Phase) (token : Bool) (e : Copy)
    → IsKept (direction taken given p)
    → IsKept (copy_in p token e (direction taken given p)).0
unfolding direction
copy_in-IsKept taken given Phase.reading false (Copy.read []) h = h
copy_in-IsKept taken given Phase.reading false (Copy.read (b ∷ bs)) h =
    ap (λ t. t ++ b ∷ bs) (sym (append-nil given) ∙ h)
copy_in-IsKept taken given Phase.reading false Copy.read_failed h = h
copy_in-IsKept taken given Phase.reading true Copy.token_seen h = h
copy_in-IsKept taken given (Phase.writing left) token (Copy.wrote k) h =
    wrote-kept k given left (drop k left) taken refl h
copy_in-IsKept taken given (Phase.writing left) token Copy.write_failed h = h
copy_in-IsKept taken given p token e h = h

copy_direction-IsKept :
    (token : Bool) (e : Copy) (d : Direction) → IsKept d → IsKept (copy_direction token e d).0
unfolding copy_direction direction
copy_direction-IsKept token e d h = copy_in-IsKept d.taken d.given d.phase token e h

bridge : Direction → Direction → Bool → Bool → Bool → Bool → Option BridgeExit → Bool → Bridge
bridge f b t u w l exit g = record {
  forth = f;
  back = b;
  token = t;
  upgrade = u;
  watching = w;
  listening = l;
  exit = exit;
  graced = g;
}

first_two : (a b c d : Bool) → (a && b && c && d) ≡ true → (a ≡ true) × (b ≡ true)
first_two a b c d e = ground arith

joined-IsWhole :
    (f b : Direction) (t u w l g : Bool)
    → IsWhole (bridge f b t u w l none g)
    → IsWhole (on_event Event.joined (bridge f b t u w l none g))
unfolding bridge
joined-IsWhole f b t u w l true h = ground (arith, h.forth, h.back)
joined-IsWhole f b t u w l false h = elim (Bool-cases (all_done (bridge f b t u w l none false))) [
  | inl e ↦ rw e (record {
    forth = h.forth;
    back = h.back;
    over = first_two (is_over f.phase) (is_over b.phase) (not w) (not l) e;
  })
  | inr e ↦ rw e h
]

on_event-IsWhole :
    (e : Event) (f b : Direction) (t u w l g : Bool)
    → IsWhole (bridge f b t u w l none g)
    → IsWhole (on_event e (bridge f b t u w l none g))
unfolding bridge
on_event-IsWhole (Event.copied Side.forth e) f b t u w l g h = record {
  forth = copy_direction-IsKept t e f h.forth;
  back = h.back;
  over = tt;
}
on_event-IsWhole (Event.copied Side.back e) f b t u w l g h = record {
  forth = h.forth;
  back = copy_direction-IsKept t e b h.back;
  over = tt;
}
on_event-IsWhole Event.idle_elapsed f b t u true l g h = ground arith
on_event-IsWhole Event.idle_elapsed f b t u false l g h = h
on_event-IsWhole Event.watchdog_ended f b true u w l g h = record {
  forth = h.forth;
  back = h.back;
  over = tt;
}
on_event-IsWhole Event.watchdog_ended f b false u w l g h = h
on_event-IsWhole Event.cancel_received f b t u w true g h = record {
  forth = h.forth;
  back = h.back;
  over = tt;
}
on_event-IsWhole Event.cancel_received f b t u w false g h = h
on_event-IsWhole Event.listener_ended f b true u w l g h = record {
  forth = h.forth;
  back = h.back;
  over = tt;
}
on_event-IsWhole Event.listener_ended f b false u w l g h = h
on_event-IsWhole Event.joined f b t u w l g h = joined-IsWhole f b t u w l g h
on_event-IsWhole Event.grace_elapsed f b true u w l g h = record {
  forth = h.forth;
  back = h.back;
  over = tt;
}
on_event-IsWhole Event.grace_elapsed f b false u w l g h = h

step_at-IsWhole :
    (exit : Option BridgeExit) (e : Event) (f b : Direction) (t u w l g : Bool)
    → IsWhole (bridge f b t u w l exit g)
    → IsWhole (step_at exit e (bridge f b t u w l exit g))
step_at-IsWhole none e f b t u w l g h = on_event-IsWhole e f b t u w l g h
step_at-IsWhole (some exit) e f b t u w l g h = h

step-IsWhole : (e : Event) (x : Bridge) → IsWhole x → IsWhole (step e x)
unfolding step bridge
step-IsWhole e x h =
    step_at-IsWhole x.exit e x.forth x.back x.token x.upgrade x.watching x.listening x.graced h

-- For each sequence of events of a bridge, in each direction: what was written, with what is left of the
-- frame that is being written or whose write failed, is what was read. Where the bridge has ended
-- and not by the drain grace, both directions have stopped, so that all that was read was written,
-- save the rest of a frame whose write failed.
pub after-IsWhole : (es : List Event) → IsWhole (after es)
unfolding after
after-IsWhole [] = record { forth = refl; back = refl; over = tt }
after-IsWhole (e ∷ es) = step-IsWhole e (after es) (after-IsWhole es)
