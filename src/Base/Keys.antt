-- ===== src/Base/Keys.antt =====
-- Association lists with each key at most once, as a `HashMap` has them.
use mathlib.Core.Path.{◌≡◌, refl, subst}
use mathlib.Core.Bool.{Bool, true, false, ◌||◌}
use mathlib.Core.List.{List, [], ◌∷◌, ◌++◌}
use mathlib.Core.Option.{Option, none, some}
use mathlib.Core.Logic.{inl, inr}
use native.Mathlib.Omega.{arith}
use five_nines_echo.Base.Tests.{Key, ◌==◌, if◌then◌else◌, Bool-cases}
use five_nines_echo.Base.Lists.{keep, All}
use five_nines_echo.Base.Maps.{lookup, insert, contains_key, remove}

module _ {ℓ κ} {K : Type ℓ} {V : Type κ} ⦃e : Key K⦄ where
  abbrev pub Unique : List (K × V) → Type 0
  Unique [] = Unit
  Unique ((k, v) ∷ m) = (contains_key k m ≡ false) × Unique m

  abbrev pub filter_entry : (K × V → Bool) → K → Option V → Option V
  filter_entry p k none = none
  filter_entry p k (some v) = if p (k, v) then some v else none

module _ {ℓ κ} {K : Type ℓ} {V : Type κ} ⦃e : Key K⦄ where
  pub lookup_absent : (k : K) (m : List (K × V)) → contains_key k m ≡ false → lookup k m ≡ none
  lookup_absent k [] h = refl
  lookup_absent k ((j, w) ∷ m) h = ground (arith, lookup_absent k m)

  pub lookup_present :
      (k : K) (m : List (K × V)) (v : V) → lookup k m ≡ some v → contains_key k m ≡ true
  lookup_present k [] v h = cc
  lookup_present k ((j, w) ∷ m) v h = ground (arith, lookup_present k m v)

  pub contains_key-insert :
      (k j : K) (v : V) (m : List (K × V))
      → contains_key j (insert k v m) ≡ (k == j || contains_key j m)
  contains_key-insert k j v [] = ground arith
  contains_key-insert k j v ((i, w) ∷ m) =
      ground (arith, e.agrees k j, e.agrees i k, e.agrees i j, contains_key-insert k j v m)

  pub insert-Unique : (k : K) (v : V) (m : List (K × V)) → Unique m → Unique (insert k v m)
  insert-Unique k v [] u = (refl, tt)
  insert-Unique k v ((i, w) ∷ m) u =
      ground
        (arith, e.agrees i k, e.agrees k i, contains_key-insert k i v m, insert-Unique k v m u.1)

  pub keep_absent :
      (p : K × V → Bool) (k : K) (m : List (K × V))
      → contains_key k m ≡ false
      → contains_key k (keep p m) ≡ false
  keep_absent p k [] h = refl
  keep_absent p k ((i, w) ∷ m) h = ground (arith, keep_absent p k m)

  pub keep-Unique : (p : K × V → Bool) (m : List (K × V)) → Unique m → Unique (keep p m)
  keep-Unique p [] u = tt
  keep-Unique p ((i, w) ∷ m) u = ground (arith, keep_absent p i m, keep-Unique p m u.1)

  pub remove_absent :
      (j k : K) (m : List (K × V)) → contains_key k m ≡ false → contains_key k (remove j m) ≡ false
  remove_absent j k [] h = refl
  remove_absent j k ((i, w) ∷ m) h = ground (arith, remove_absent j k m)

  pub remove-Unique : (k : K) (m : List (K × V)) → Unique m → Unique (remove k m)
  remove-Unique k [] u = tt
  remove-Unique k ((i, w) ∷ m) u = ground (arith, remove_absent k i m, remove-Unique k m u.1)

  pub lookup-remove :
      (k j : K) (m : List (K × V))
      → Unique m
      → lookup j (remove k m) ≡ (if k == j then none else lookup j m)
  lookup-remove k j [] u = ground arith
  lookup-remove k j ((i, w) ∷ m) u =
      ground (
        arith,
        e.agrees k j,
        e.agrees i k,
        e.agrees i j,
        lookup_absent j m,
        lookup-remove k j m u.1,
      )

  pub lookup-keep :
      (p : K × V → Bool) (j : K) (m : List (K × V))
      → Unique m
      → lookup j (keep p m) ≡ filter_entry p j (lookup j m)
  lookup-keep p j [] u = refl
  lookup-keep p j ((i, w) ∷ m) u =
      ground (arith, e.agrees i j, lookup_absent j m, lookup-keep p j m u.1)

  pub All-lookup {μ} :
      (P : K × V → Type μ) (k : K) (m : List (K × V)) {v : V}
      → All P m
      → lookup k m ≡ some v
      → P (k, v)
  All-lookup P k [] h q = cc
  All-lookup P k ((i, w) ∷ m) {v} h q = elim (Bool-cases (i == k)) [
    | inl same ↦
        let same_key : i ≡ k = (e.agrees i k).0 same in
        let same_value : w ≡ v = ground arith in
        subst (λ x. P (k, x)) same_value (subst (λ x. P (x, w)) same_key h.0)
    | inr other ↦ All-lookup P k m h.1 (ground arith)
  ]

  pub insert_absent :
      (k : K) (v : V) (m : List (K × V))
      → contains_key k m ≡ false
      → insert k v m ≡ m ++ (k, v) ∷ []
  insert_absent k v [] h = refl
  insert_absent k v ((i, w) ∷ m) h = ground (arith, insert_absent k v m)
