-- ===== src/Processor/Upgrade/Drain.antt =====
-- processor/upgrade.rs, `drain_session_handoffs`: what each session hands over.
use five_nines_echo.Base.{
  ℕ, String, string_key, ◌≡◌, refl, ap, ◌∙◌, Bool, true, Option, none, some, List, [], ◌∷◌, map,
  All, keep, lookup,
}
use five_nines_echo.Control.{SessionMetadata}
use five_nines_echo.Handoff.{SessionHandoff}
use five_nines_echo.Processor.Session.{hand_over, spawn_session}
use five_nines_echo.Processor.Registry.{SessionHandle}
use five_nines_echo.Processor.Upgrade.{
  Answer, await_session_handoff, drain_each, enrich_handoff, with_ident, is_adoptable,
}
use five_nines_echo.Processor.Upgrade.Adopt.{revived, IsUsable}

abbrev pub Metadata : Type 0
Metadata = List (String × SessionMetadata)

-- The task hands its session over: no fault is injected, and the descriptor can be inherited.
abbrev pub handing : SessionHandle → Answer
handing h = record { fault = none; handoff = some (hand_over h.origin h.session); cleared = true }

abbrev pub Handed : (ℕ → Answer) → ℕ × SessionHandle → Type 0
Handed answers entry = answers entry.0 ≡ handing entry.1

-- What is drained of a session, with what the metadata know of its peer.
abbrev pub handed : Metadata → ℕ × SessionHandle → SessionHandoff
handed metadata entry = enrich_handoff (hand_over entry.1.origin entry.1.session) metadata

-- The same session in a new task.
abbrev pub moved : ℕ × SessionHandle → SessionHandle
moved (id, h) = record {
  peer = h.origin.peer;
  origin = h.origin;
  session = spawn_session h.session.read_buffer h.session.write_buffer h.session.counter;
}

pub drain_each-handed :
    (answers : ℕ → Answer) (metadata : Metadata) (sessions : List (ℕ × SessionHandle))
    → All (Handed answers) sessions
    → drain_each answers metadata sessions
      ≡ record { handoffs = map (handed metadata) sessions; closed = [] }
unfolding drain_each await_session_handoff
drain_each-handed answers metadata [] h = refl
drain_each-handed answers metadata (entry ∷ sessions) h =
    rw (h.0, drain_each-handed answers metadata sessions h.1)

module _ (reconstruct : ℕ → Bool) where
  abbrev pub IsOpen : ℕ × SessionHandle → Type 0
  IsOpen entry = reconstruct entry.1.origin.fd ≡ true

  with_ident-kept :
      (o : Option SessionMetadata) (entry : ℕ × SessionHandle)
      → IsOpen entry
      → let h = with_ident o (hand_over entry.1.origin entry.1.session) in
        IsUsable reconstruct h × (is_adoptable h ≡ true) × (revived h ≡ moved entry)
  with_ident-kept none entry p = ((refl, p), refl, refl)
  with_ident-kept (some meta) entry p = ((refl, p), refl, refl)

  handed-kept :
      (metadata : Metadata) (entry : ℕ × SessionHandle)
      → IsOpen entry
      → let h = handed metadata entry in
        IsUsable reconstruct h × (is_adoptable h ≡ true) × (revived h ≡ moved entry)
  unfolding enrich_handoff
  handed-kept metadata entry p = with_ident-kept (lookup entry.1.origin.peer metadata) entry p

  pub handed-IsUsable :
      (metadata : Metadata) (sessions : List (ℕ × SessionHandle))
      → All IsOpen sessions
      → All (IsUsable reconstruct) (map (handed metadata) sessions)
  handed-IsUsable metadata [] p = tt
  handed-IsUsable metadata (entry ∷ sessions) p =
      ((handed-kept metadata entry p.0).0, handed-IsUsable metadata sessions p.1)

  pub handed-adoptable :
      (metadata : Metadata) (sessions : List (ℕ × SessionHandle))
      → All IsOpen sessions
      → keep is_adoptable (map (handed metadata) sessions) ≡ map (handed metadata) sessions
  handed-adoptable metadata [] p = refl
  handed-adoptable metadata (entry ∷ sessions) p =
      rw (handed-kept metadata entry p.0).1
        (ap (λ hs. handed metadata entry ∷ hs) (handed-adoptable metadata sessions p.1))

  pub handed-revived :
      (metadata : Metadata) (sessions : List (ℕ × SessionHandle))
      → All IsOpen sessions
      → map revived (map (handed metadata) sessions) ≡ map moved sessions
  handed-revived metadata [] p = refl
  handed-revived metadata (entry ∷ sessions) p =
      ap (λ h. h ∷ map revived (map (handed metadata) sessions)) (handed-kept metadata entry p.0).2
      ∙ ap (λ hs. moved entry ∷ hs) (handed-revived metadata sessions p.1)
