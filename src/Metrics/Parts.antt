-- ===== src/Metrics/Parts.antt =====
-- metrics.rs, `MetricsSnapshot::from_parts`: which status a role's metrics are from.
use five_nines_echo.Base.{
  ℕ, ◌≡◌, inl, inr, true, false, Option, none, some, List, [], ◌∷◌, ◌++◌, String, string_key, ◌==◌,
  map, All, Bool-cases,
}
use five_nines_echo.Control.{RoleHealth, WorkerStatus}
use five_nines_echo.Metrics.{RoleMetrics, UpgradeCounters, find_role, role_metrics, from_parts}

-- A list of statuses whose first of `role` is `s`.
pub data First (role : String) (s : WorkerStatus) : List WorkerStatus → Type 0 where
  first :
      (before after : List WorkerStatus)
      → All (λ t. (t.role == role) ≡ false) before
      → (s.role == role) ≡ true
      → First role s (before ++ s ∷ after)

-- A role's metrics: those of the first status that names it, or zeros if none does.
pub data Reports (h : RoleHealth) (statuses : List WorkerStatus) : RoleMetrics → Type 0 where
  known :
      (s : WorkerStatus) → First h.role s statuses → Reports h statuses (role_metrics h (some s))
  unknown :
      All (λ t. (t.role == h.role) ≡ false) statuses → Reports h statuses (role_metrics h none)

abbrev Finds : String → List WorkerStatus → Option WorkerStatus → Type 0
Finds role statuses none = All (λ t. (t.role == role) ≡ false) statuses
Finds role statuses (some s) = First role s statuses

Finds-cons :
    (role : String) (t : WorkerStatus) (ts : List WorkerStatus) (o : Option WorkerStatus)
    → (t.role == role) ≡ false
    → Finds role ts o
    → Finds role (t ∷ ts) o
Finds-cons role t ts none e h = (e, h)
Finds-cons role t _ (some s) e (first before after h k) = first (t ∷ before) after (e, h) k

find_role-Finds :
    (role : String) (statuses : List WorkerStatus) → Finds role statuses (find_role role statuses)
find_role-Finds role [] = tt
find_role-Finds role (t ∷ ts) = elim (Bool-cases (t.role == role)) [
  | inl same ↦ rw same (first [] ts tt same)
  | inr other ↦ rw other (Finds-cons role t ts (find_role role ts) other (find_role-Finds role ts))
]

-- The metrics and the roles' health, side by side.
abbrev pub Each : List RoleHealth → List WorkerStatus → List RoleMetrics → Type 0
Each [] statuses [] = Unit
Each [] statuses (m ∷ ms) = ⊥
Each (h ∷ hs) statuses [] = ⊥
Each (h ∷ hs) statuses (m ∷ ms) = Reports h statuses m × Each hs statuses ms

Finds-Reports :
    (h : RoleHealth) (statuses : List WorkerStatus) (o : Option WorkerStatus)
    → Finds h.role statuses o
    → Reports h statuses (role_metrics h o)
Finds-Reports h statuses none f = unknown f
Finds-Reports h statuses (some s) f = known s f

map-Each :
    (hs : List RoleHealth) (statuses : List WorkerStatus)
    → Each hs statuses (map (λ h. role_metrics h (find_role h.role statuses)) hs)
map-Each [] statuses = tt
map-Each (h ∷ hs) statuses = (
  Finds-Reports h statuses (find_role h.role statuses) (find_role-Finds h.role statuses),
  map-Each hs statuses,
)

-- A snapshot has one entry for each role's health, in order, with the generation, the sessions, the
-- pid and the limiter's numbers of the first status that names the role, and zeros without one.
pub from_parts-Each :
    (generation started : ℕ) (statuses : List WorkerStatus) (healths : List RoleHealth)
    (c : UpgradeCounters)
    → Each healths statuses (from_parts generation started statuses healths c).roles
unfolding from_parts
from_parts-Each generation started statuses healths c = map-Each healths statuses
