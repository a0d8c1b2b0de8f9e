-- ===== src/Base/Maps.antt =====
-- A `HashMap` as an association list. The order of the list stands for the iteration order.
use Prim.Native.Nat.{suc}
use mathlib.Core.Path.{◌≡◌, refl}
use mathlib.Core.Bool.{Bool, true, false}
use mathlib.Core.List.{List, [], ◌∷◌}
use mathlib.Core.Option.{Option, none, some}
use native.Mathlib.Omega.{arith}
use five_nines_echo.Base.Tests.{Key, ◌==◌, if◌then◌else◌}
use five_nines_echo.Base.Lists.{length, All}

module _ {ℓ κ} {K : Type ℓ} {V : Type κ} ⦃e : Key K⦄ where
  abbrev pub lookup : K → List (K × V) → Option V
  lookup key [] = none
  lookup key (entry ∷ rest) = if entry.0 == key then some entry.1 else lookup key rest

  -- The key's entry keeps its place, and a new one goes to the end.
  abbrev pub insert : K → V → List (K × V) → List (K × V)
  insert key value [] = (key, value) ∷ []
  insert key value (entry ∷ rest) =
      let others = insert key value rest in
      if entry.0 == key then (key, value) ∷ rest else entry ∷ others

  abbrev pub contains_key : K → List (K × V) → Bool
  contains_key key [] = false
  contains_key key (entry ∷ rest) = if entry.0 == key then true else contains_key key rest

  abbrev pub remove : K → List (K × V) → List (K × V)
  remove key [] = []
  remove key (entry ∷ rest) =
      let others = remove key rest in if entry.0 == key then rest else entry ∷ others

module _ {ℓ κ} {K : Type ℓ} {V : Type κ} ⦃e : Key K⦄ where
  pub lookup-insert :
      (key asked : K) (value : V) (table : List (K × V))
      → lookup asked (insert key value table)
        ≡ (if key == asked then some value else lookup asked table)
  lookup-insert key asked value [] = refl
  lookup-insert key asked value ((other, old) ∷ rest) = ground (
    arith,
    e.agrees other key,
    e.agrees other asked,
    e.agrees key asked,
    lookup-insert key asked value rest,
  )

  pub length-insert :
      (k : K) (v : V) (m : List (K × V))
      → length (insert k v m) ≡ (if contains_key k m then length m else suc (length m))
  length-insert k v [] = refl
  length-insert k v ((i, w) ∷ m) = ground (arith, length-insert k v m)

  pub length-remove :
      (k : K) (m : List (K × V)) → contains_key k m ≡ true → suc (length (remove k m)) ≡ length m
  length-remove k [] h = cc
  length-remove k ((i, w) ∷ m) h = ground (arith, length-remove k m)

  pub All-insert {μ} :
      (P : K × V → Type μ) (k : K) (v : V) (m : List (K × V))
      → P (k, v)
      → All P m
      → All P (insert k v m)
  All-insert P k v [] p h = (p, tt)
  All-insert P k v ((i, w) ∷ m) p h = ground (arith, All-insert P k v m p h.1)

  pub All-remove {μ} :
      (P : K × V → Type μ) (k : K) (m : List (K × V)) → All P m → All P (remove k m)
  All-remove P k [] h = h
  All-remove P k ((i, w) ∷ m) h = ground (arith, All-remove P k m h.1)
