-- ===== src/Systemd/Listeners.antt =====
-- systemd.rs, `SdListeners`: which descriptors are adopted, and which one a name takes.
use five_nines_echo.Base.{
  ℕ, zero, suc, ◌+◌, ◌≡◌, refl, ◌∙◌, inl, inr, true, false, Option, none, some, List, [], ◌∷◌, ◌++◌,
  String, string_key, nat_key, ◌==◌, if◌then◌else◌, ltb, get_elem?, All, Bool-cases, ==_refl, arith,
  ap,
}
use five_nines_echo.Systemd.{
  Var, SdListeners, Env, sd_listen_fds_start, or_unknown, adopt, or_later, from_env, take_by_name,
}

-- The first entry of a name, and the list without it.
pub data Takes (name : String) : SdListeners → Option ℕ × SdListeners → Type 0 where
  absent : (l : SdListeners) → All (λ e. (e.0 == name) ≡ false) l → Takes name l (none, l)
  found :
      (before after : SdListeners) (entry : String × ℕ)
      → All (λ e. (e.0 == name) ≡ false) before
      → (entry.0 == name) ≡ true
      → Takes name (before ++ entry ∷ after) (some entry.1, before ++ after)

Takes-cons :
    (name : String) (entry : String × ℕ) (l : SdListeners) (r : Option ℕ × SdListeners)
    → (entry.0 == name) ≡ false
    → Takes name l r
    → Takes name (entry ∷ l) (or_later entry r)
Takes-cons name entry _ _ ne (absent l all) = absent (entry ∷ l) (ne, all)
Takes-cons name entry _ _ ne (found before after e all same) =
    found (entry ∷ before) after e (ne, all) same

-- `take_by_name` takes the first descriptor of the name, and no other; without one it takes nothing.
pub take_by_name-Takes : (name : String) (l : SdListeners) → Takes name l (take_by_name name l)
unfolding take_by_name
take_by_name-Takes name [] = absent [] tt
take_by_name-Takes name (entry ∷ rest) = elim (Bool-cases (entry.0 == name)) [
  | inl same ↦ rw same (found [] rest entry tt same)
  | inr other ↦
      rw other
        (Takes-cons name entry rest (take_by_name name rest) other (take_by_name-Takes name rest))
]

-- The entry adopted at index `k`.
abbrev pub entry_at : List String → ℕ → String × ℕ
entry_at names k = (or_unknown (get_elem? names k), sd_listen_fds_start + k)

get_elem?-adopt :
    (names : List String) (i count j : ℕ)
    → get_elem? (adopt names i count) j
      ≡ (if ltb j count then some (entry_at names (i + j)) else none)
get_elem?-adopt names i zero zero = ground arith
get_elem?-adopt names i zero (suc j) = ground arith
get_elem?-adopt names i (suc count) zero =
    let e : i ≡ i + zero = omega arith in
    let first : ltb zero (suc count) ≡ true = ground arith in
    rw first (ap (λ k. some (entry_at names k)) e)
get_elem?-adopt names i (suc count) (suc j) =
    let e : suc i + j ≡ i + suc j = omega arith in
    let less : ltb (suc j) (suc count) ≡ ltb j count = ground arith in
    get_elem?-adopt names (suc i) count j
    ∙ rw less (ap (λ k. if ltb j count then some (entry_at names k) else none) e)

-- Under activation meant for this process, the listeners are the descriptors from 3 on, as many as
-- `LISTEN_FDS` counts, each under its name in `LISTEN_FDNAMES`, or "unknown" past its end.
pub from_env-get_elem? :
    (names : List String) (pid count j : ℕ)
    → let env : Env = record {
      listen_pid = Var.number pid;
      listen_fds = Var.number count;
      names = names;
      self_pid = pid;
    } in
      (l : SdListeners) × (from_env env ≡ some l)
      × (get_elem? l j ≡ (if ltb j count then some (entry_at names j) else none))
unfolding from_env
from_env-get_elem? names pid count j =
    let e : 0 + j ≡ j = omega arith in
    (
      adopt names 0 count,
      rw (==_refl pid) refl,
      get_elem?-adopt names 0 count j
          ∙ ap (λ k. if ltb j count then some (entry_at names k) else none) e,
    )
