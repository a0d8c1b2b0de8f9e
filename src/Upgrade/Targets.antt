-- ===== src/Upgrade/Targets.antt =====
-- supervisor/admin.rs, `rolling_upgrade`: which workers a request walks, and the lock.
use five_nines_echo.Base.{
  ℕ, suc, subst, All, ◌≡◌, refl, inl, inr, Bool, true, false, ◌||◌, not, Option, none, some, List,
  [], ◌∷◌, String, string_key, ◌==◌, if◌then◌else◌, Bool-cases, arith,
}
use five_nines_echo.Watchdog.{roles}
use five_nines_echo.Upgrade.{RollingUpgradeRequest, all_targets, is_worker, targets_of, targets}

-- How often a role is among the targets.
abbrev pub times : String → List String → ℕ
times role [] = 0
times role (r ∷ rs) = let rest = times role rs in if r == role then suc rest else rest

-- Whether a request upgrades a worker: the one it names, or else each but `tls` unless included.
abbrev wanted_of : Bool → Option String → String → Bool
wanted_of include_tls none role = include_tls || not (role == "tls")
wanted_of include_tls (some only) role = only == role

abbrev pub wanted : RollingUpgradeRequest → String → Bool
wanted req role = wanted_of req.include_tls req.only_role role

abbrev AsWanted : Bool → Option String → List String → String → Type 0
AsWanted include_tls only ts role =
    times role ts ≡ (if wanted_of include_tls only role then 1 else 0)

targets_of-wanted :
    (include_tls : Bool) (only : Option String) (ts : List String)
    → targets_of include_tls only ≡ some ts
    → All (AsWanted include_tls only ts) roles
targets_of-wanted true none ts h =
    let same : all_targets true ≡ ts = cc in
    subst (λ ts. All (AsWanted true none ts) roles) same (refl, (refl, (refl, (refl, tt))))
targets_of-wanted false none ts h =
    let same : all_targets false ≡ ts = cc in
    subst (λ ts. All (AsWanted false none ts) roles) same (refl, (refl, (refl, (refl, tt))))
targets_of-wanted include_tls (some only) ts h = elim (Bool-cases (is_worker only)) [
  | inr unknown ↦ ground (arith, h)
  | inl known ↦
      let k : some (only ∷ []) ≡ some ts = simp known at h in
      let same : only ∷ [] ≡ ts = cc in
      subst (λ ts. All (AsWanted include_tls (some only) ts) roles) same
        (refl, (refl, (refl, (refl, tt))))
]

-- The targets of a request hold each worker that it wants exactly once, and no other worker.
pub targets-wanted :
    (req : RollingUpgradeRequest) (ts : List String)
    → targets req ≡ some ts
    → All (λ role. times role ts ≡ (if wanted req role then 1 else 0)) roles
targets-wanted req ts h = targets_of-wanted req.include_tls req.only_role ts h
