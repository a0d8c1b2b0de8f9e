-- ===== src/Upgrade/Await.antt =====
-- supervisor/admin.rs, the loop of `upgrade_one`: what its two outcomes mean.
use five_nines_echo.Base.{
  ℕ, ◌≤◌, ◌<◌, ◌≡◌, refl, ◌⊎◌, inl, inr, Option, none, some, List, [], ◌∷◌, ltb, Bool-cases,
  Option-cases, arith,
}
use five_nines_echo.Control.{WorkerStatus}
use five_nines_echo.Upgrade.{UpgradePoll, Awaited, rolled, await_generation}

-- A poll by the deadline that is answered with generation `g`.
abbrev pub Answered : ℕ → ℕ → List UpgradePoll → Type 0
Answered deadline g [] = ⊥
Answered deadline g (p ∷ ps) =
    ((p.now ≤ deadline) × ((s : WorkerStatus) × (p.status ≡ some s) × (s.generation ≡ g)))
    ⊎ Answered deadline g ps

-- A poll after the deadline, before which no poll saw a generation above `pre_gen`.
abbrev pub Expired : ℕ → ℕ → List UpgradePoll → Type 0
Expired pre_gen deadline [] = ⊥
Expired pre_gen deadline (p ∷ ps) =
    (deadline < p.now) ⊎ ((rolled pre_gen p.status ≡ none) × Expired pre_gen deadline ps)

abbrev pub Explained : ℕ → ℕ → List UpgradePoll → Option Awaited → Type 0
Explained pre_gen deadline polls none = Unit
Explained pre_gen deadline polls (some Awaited.timed_out) = Expired pre_gen deadline polls
Explained pre_gen deadline polls (some (Awaited.done g)) = (pre_gen < g) × Answered deadline g polls

rolled_status :
    (pre_gen g : ℕ) (o : Option WorkerStatus)
    → rolled pre_gen o ≡ some g
    → (pre_gen < g) × ((s : WorkerStatus) × (o ≡ some s) × (s.generation ≡ g))
rolled_status pre_gen g none h = cc
rolled_status pre_gen g (some s) h = (ground arith, (s, refl, ground arith))

Explained-cons :
    (pre_gen deadline : ℕ) (p : UpgradePoll) (ps : List UpgradePoll) (o : Option Awaited)
    → rolled pre_gen p.status ≡ none
    → Explained pre_gen deadline ps o
    → Explained pre_gen deadline (p ∷ ps) o
Explained-cons pre_gen deadline p ps none e h = tt
Explained-cons pre_gen deadline p ps (some Awaited.timed_out) e h = inr (e, h)
Explained-cons pre_gen deadline p ps (some (Awaited.done g)) e h = (h.0, inr h.1)

-- An upgrade is reported done only at a generation above the one before it, which the worker itself
-- reported by the deadline, and timed out only at a poll after the deadline, when no poll before had
-- seen such a generation.
pub await_generation-Explained :
    (pre_gen deadline : ℕ) (polls : List UpgradePoll)
    → Explained pre_gen deadline polls (await_generation pre_gen deadline polls)
unfolding await_generation
await_generation-Explained pre_gen deadline [] = tt
await_generation-Explained pre_gen deadline (p ∷ ps) = elim (Bool-cases (ltb deadline p.now)) [
  | inl late ↦ rw late (inl (ground arith))
  | inr early ↦ elim (Option-cases (rolled pre_gen p.status)) [
    | inl e ↦ rw early (
        rw e (
          Explained-cons pre_gen deadline p ps (await_generation pre_gen deadline ps) e
            (await_generation-Explained pre_gen deadline ps)))
    | inr (g, e) ↦
        let s = rolled_status pre_gen g p.status e in rw early (rw e (s.0, inl (ground arith, s.1)))
  ]
]
