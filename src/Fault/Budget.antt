-- ===== src/Fault/Budget.antt =====
-- fault_inject.rs: how often a point fires.
use five_nines_echo.Base.{
  ℕ, suc, ◌+◌, ◌-◌, ◌≤◌, ◌≡◌, refl, ◌∙◌, ap, inl, inr, min, String, string_key, ◌==◌, false, Option,
  none, some, List, [], ◌∷◌, nat_beq, if◌then◌else◌, Bool-cases, arith, ==_refl,
}
use five_nines_echo.Base.Words.{u32_max}
use five_nines_echo.Fault.{
  FaultPointConfig, ActivePoint, InjectedFault, fire, try_fire, check, init,
}

-- The budget of the first point of a name; a name without a point has none.
abbrev pub budget_of : String → List ActivePoint → ℕ
budget_of point [] = 0
budget_of point (p ∷ ps) =
    let rest = budget_of point ps in if p.name == point then p.budget else rest

abbrev pub fired : Option InjectedFault → ℕ
fired none = 0
fired (some fault) = 1

-- The shots that `n` checks take from a budget.
abbrev pub shots : ℕ → ℕ → ℕ
shots budget n = if nat_beq budget u32_max then n else min budget n

-- How often a point fires in a run of checks, and how often it is checked.
unfoldable pub fires : String → List String → List ActivePoint → ℕ
fires point [] ps = 0
fires point (c ∷ cs) ps =
    let rest = fires point cs (check c ps).0 in
    if c == point then fired (check c ps).1 + rest else rest

abbrev pub times : String → List String → ℕ
times point [] = 0
times point (c ∷ cs) = let rest = times point cs in if c == point then suc rest else rest

-- The budget after a check.
abbrev left : ℕ → ℕ
left b = if nat_beq b u32_max then u32_max else b - 1

fire_one :
    (p : ActivePoint)
    → ((fire p (try_fire p.budget)).0.name ≡ p.name)
      × ((fire p (try_fire p.budget)).0.budget ≡ left p.budget)
      × (fired (fire p (try_fire p.budget)).1 ≡ shots p.budget 1)
fire_one p = ground arith

-- A check takes a shot from its own point if there is one.
check_own :
    (point : String) (ps : List ActivePoint)
    → (fired (check point ps).1 ≡ shots (budget_of point ps) 1)
      × (budget_of point (check point ps).0 ≡ left (budget_of point ps))
unfolding check
check_own point [] = ground arith
check_own point (p ∷ ps) = elim (Bool-cases (p.name == point)) [
  | inl mine ↦ let f = fire_one p in rw mine (f.2, rw (f.0) (rw mine (f.1)))
  | inr other ↦ rw other (rw other (check_own point ps))
]

-- A check of another point takes none.
check_other :
    (point other : String) (ps : List ActivePoint)
    → (other == point) ≡ false
    → budget_of point (check other ps).0 ≡ budget_of point ps
unfolding check
check_other point other [] ne = refl
check_other point other (p ∷ ps) ne = elim (Bool-cases (p.name == other)) [
  | inl theirs ↦
      let f = fire_one p in
      let same : p.name ≡ other = (string_key.agrees p.name other).0 theirs in
      let ne' : (p.name == point) ≡ false = rw same ne in rw theirs (rw (f.0) (rw ne' refl))
  | inr distinct ↦ rw distinct (rw (check_other point other ps ne) refl)
]

shots-suc : (b n : ℕ) → b ≤ u32_max → shots b 1 + shots (left b) n ≡ shots b (suc n)
shots-suc b n h = ground arith

-- In any run of checks of any points, a point whose budget is a `u32` fires as often as it is checked, up to its budget, and
-- without end if the budget is `u32::MAX`; a name without a point never fires.
pub fires-shots :
    (point : String) (calls : List String) (ps : List ActivePoint)
    → budget_of point ps ≤ u32_max
    → fires point calls ps ≡ shots (budget_of point ps) (times point calls)
unfolding fires
fires-shots point [] ps h = ground arith
fires-shots point (c ∷ cs) ps h = elim (Bool-cases (c == point)) [
  | inl mine ↦
      let same : c ≡ point = (string_key.agrees c point).0 mine in
      let own = check_own point ps in
      rw same (
        rw (==_refl point) (
          ap (λ k. k + fires point cs (check point ps).0) own.0
          ∙ ap (λ k. shots (budget_of point ps) 1 + k)
              (fires-shots point cs (check point ps).0 (rw (own.1) (ground arith))
                ∙ ap (λ b. shots b (times point cs)) own.1)
          ∙ shots-suc (budget_of point ps) (times point cs) h))
  | inr other ↦ rw other (
      fires-shots point cs (check c ps).0 (rw (check_other point c ps other) h)
      ∙ ap (λ b. shots b (times point cs)) (check_other point c ps other))
]

-- The budget that a configuration gives: that of the first point of the name, unlimited for 0.
abbrev pub configured : String → List FaultPointConfig → ℕ
configured point [] = 0
configured point (p ∷ ps) =
    let rest = configured point ps in
    if p.name == point
    then if nat_beq p.trigger_budget 0 then u32_max else p.trigger_budget
    else rest

budget_of-init :
    (point : String) (cfg : List FaultPointConfig)
    → budget_of point (init cfg) ≡ configured point cfg
budget_of-init point [] = refl
budget_of-init point (p ∷ ps) = rw (budget_of-init point ps) refl

-- From any configuration of `u32` budgets, a point fires as often as it is checked, up to the budget of the first point
-- of its name, whatever other points are checked in between; a budget of 0 or `u32::MAX` has no end.
pub fires-configured :
    (point : String) (calls : List String) (cfg : List FaultPointConfig)
    → configured point cfg ≤ u32_max
    → fires point calls (init cfg) ≡ shots (configured point cfg) (times point calls)
fires-configured point calls cfg h =
    fires-shots point calls (init cfg) (rw (budget_of-init point cfg) h)
    ∙ ap (λ b. shots b (times point calls)) (budget_of-init point cfg)
