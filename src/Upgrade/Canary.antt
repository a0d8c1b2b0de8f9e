-- ===== src/Upgrade/Canary.antt =====
-- supervisor/admin.rs, `canary_observe`: the first regression in the window aborts.
use five_nines_echo.Base.{
  ℕ, ◌≡◌, refl, inl, inr, Bool, true, false, Option, none, some, List, [], ◌∷◌, ltb, if◌then◌else◌,
  Bool-cases,
}
use five_nines_echo.Control.{HealthState}
use five_nines_echo.Upgrade.{CanaryPoll, Observed, health_state_rank, observe}

-- The polls of the window, up to the first at or after the deadline.
abbrev pub window : ℕ → List CanaryPoll → List CanaryPoll
window deadline [] = []
window deadline (p ∷ ps) =
    let rest = window deadline ps in if ltb p.now deadline then p ∷ rest else []

abbrev pub closes : ℕ → List CanaryPoll → Bool
closes deadline [] = false
closes deadline (p ∷ ps) =
    let rest = closes deadline ps in if ltb p.now deadline then rest else true

abbrev pub first_worse : HealthState → List CanaryPoll → Option HealthState
first_worse baseline [] = none
first_worse baseline (p ∷ ps) =
    let rest = first_worse baseline ps in
    if ltb (health_state_rank baseline) (health_state_rank p.state) then some p.state else rest

abbrev pub verdict : Option HealthState → Bool → Option Observed
verdict (some state) closed = some (Observed.regressed state)
verdict none true = some Observed.clean
verdict none false = none

-- The canary's verdict is the first state of its window that is worse than the baseline; without one
-- it is clean once the window closes.
pub observe-verdict :
    (deadline : ℕ) (baseline : HealthState) (polls : List CanaryPoll)
    → observe deadline baseline polls
      ≡ verdict (first_worse baseline (window deadline polls)) (closes deadline polls)
unfolding observe
observe-verdict deadline baseline [] = refl
observe-verdict deadline baseline (p ∷ ps) = elim (Bool-cases (ltb p.now deadline)) [
  | inr closed ↦ rw closed refl
  | inl inside ↦ elim (Bool-cases (ltb (health_state_rank baseline) (health_state_rank p.state))) [
    | inl worse ↦ rw inside (rw worse refl)
    | inr fine ↦ rw inside (rw fine (observe-verdict deadline baseline ps))
  ]
]
