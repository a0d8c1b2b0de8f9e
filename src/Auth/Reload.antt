-- ===== src/Auth/Reload.antt =====
-- auth.rs: whom a configured allowlist lets in.
use five_nines_echo.Base.{
  ℕ, ◌≡◌, ◌↔◌, ◌⊎◌, inr, true, Option, none, some, List, [], ◌∷◌, any, nat_beq, arith,
}
use five_nines_echo.Auth.{check_peer, contains, from_config}

-- A uid of the configured list, or the process's own uid if the list is empty.
abbrev pub Listed : ℕ → List ℕ → Type 0
Listed uid [] = ⊥
Listed uid (u ∷ us) = (uid ≡ u) ⊎ Listed uid us

abbrev pub Allowed : ℕ → List ℕ → ℕ → Type 0
Allowed effective [] uid = uid ≡ effective
Allowed effective (u ∷ us) uid = Listed uid (u ∷ us)

any-Listed : (uid : ℕ) (us : List ℕ) → (any (nat_beq uid) us ≡ true) ↔ Listed uid us
any-Listed uid [] = ground arith
any-Listed uid (u ∷ us) = ground (arith, any-Listed uid us)

contains-Allowed :
    (effective : ℕ) (configured : List ℕ) (uid : ℕ)
    → (contains uid (from_config effective configured) ≡ true) ↔ Allowed effective configured uid
contains-Allowed effective [] uid = ground arith
contains-Allowed effective (u ∷ us) uid = any-Listed uid (u ∷ us)

-- Under the allowlist of any configuration a peer is let in, as itself, exactly if its uid is
-- configured, or is the process's own when none is configured; a peer whose uid is unknown never is.
pub check_peer-Allowed :
    (effective : ℕ) (configured : List ℕ) (peer : Option ℕ) (uid : ℕ)
    → (check_peer peer (from_config effective configured) ≡ inr uid)
      ↔ ((peer ≡ some uid) × Allowed effective configured uid)
unfolding check_peer
check_peer-Allowed effective configured none uid = ground arith
check_peer-Allowed effective configured (some p) uid =
    ground (arith, contains-Allowed effective configured p)
