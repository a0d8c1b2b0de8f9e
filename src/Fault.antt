-- ===== src/Fault.antt =====
-- fault_inject.rs: named points at which a build with debug assertions can be made to fail, each as
-- often as its budget allows. The atomic budgets are numbers; a check is one `fetch_update`.
pub mod Budget
mod Tests
use five_nines_echo.Base.{
  ℕ, suc, ◌-◌, String, string_key, ◌==◌, Bool, true, false, Option, none, some, List, [], ◌∷◌,
  nat_beq, if◌then◌else◌, map,
}
use five_nines_echo.Base.Words.{u32_max}

-- config.rs, `FaultPointConfig`
pub record FaultPointConfig : Type 0 where
  pub name : String
  pub kind : String
  pub message : String
  pub trigger_budget : ℕ

-- The kind of an I/O error is always `Other`.
pub data InjectedFault : Type 0 where
  io_error : String → InjectedFault
  skip : InjectedFault
  panic : String → InjectedFault

pub record ActivePoint : Type 0 where
  pub name : String
  pub kind : InjectedFault
  pub budget : ℕ

abbrev fault_kind : String → String → InjectedFault
fault_kind kind message =
    if kind == "panic"
    then InjectedFault.panic message
    else if kind == "skip"
    then InjectedFault.skip
    else InjectedFault.io_error message

abbrev pub build_active_point : FaultPointConfig → ActivePoint
build_active_point p = record {
  name = p.name;
  kind = fault_kind p.kind p.message;
  budget = if nat_beq p.trigger_budget 0 then u32_max else p.trigger_budget;
}

-- The budget after a shot, or `none` if there was none left.
abbrev pub try_fire : ℕ → Option ℕ
try_fire b = if nat_beq b 0 then none else if nat_beq b u32_max then some u32_max else some (b - 1)

abbrev fire : ActivePoint → Option ℕ → ActivePoint × Option InjectedFault
fire p none = (p, none)
fire p (some b) = (record p { budget = b }, some p.kind)

abbrev on_rest :
    ActivePoint → List ActivePoint × Option InjectedFault → List ActivePoint × Option InjectedFault
on_rest p (ps, fault) = (p ∷ ps, fault)

-- The first point of the name decides.
unfoldable pub check : String → List ActivePoint → List ActivePoint × Option InjectedFault
check point [] = ([], none)
check point (p ∷ ps) =
    let rest = check point ps in
    if p.name == point
    then (let r = fire p (try_fire p.budget) in (r.0 ∷ ps, r.1))
    else on_rest p rest

abbrev pub init : List FaultPointConfig → List ActivePoint
init points = map build_active_point points
