-- ===== src/Client/Flags.antt =====
-- admin.rs, `run_upgrade`: every request has a command line.
use five_nines_echo.Base.{
  ℕ, ◌^◌, ◌<◌, String, ◌≡◌, refl, Bool, true, false, Option, none, some, List, [], ◌∷◌, ◌++◌, arith,
}
use five_nines_echo.Upgrade.{RollingUpgradeRequest}
use five_nines_echo.Client.{Parsed, parse_flags, no_flags}

module _ (print : ℕ → String) where
  abbrev path_args : Option String → List String
  path_args none = []
  path_args (some path) = "--target" ∷ path ∷ []

  abbrev tls_args : Bool → List String
  tls_args false = []
  tls_args true = "--include-tls" ∷ []

  abbrev canary_args : Option ℕ → List String
  canary_args none = []
  canary_args (some n) = "--canary" ∷ print n ∷ []

  abbrev role_args : Option String → List String
  role_args none = []
  role_args (some role) = "--role" ∷ role ∷ []

  -- The arguments of a request.
  abbrev pub args_of : RollingUpgradeRequest → List String
  args_of r =
      path_args r.binary_path
      ++ (tls_args r.include_tls ++ (canary_args r.canary_secs ++ role_args r.only_role))

abbrev req : Option String → Bool → Option ℕ → Option String → RollingUpgradeRequest
req path tls secs role = record {
  binary_path = path;
  include_tls = tls;
  canary_secs = secs;
  only_role = role;
}

-- The seconds are a `u64`.
abbrev pub IsWord : Option ℕ → Type 0
IsWord none = Unit
IsWord (some n) = n < 2 ^ 64

module _ (print : ℕ → String) (parse : String → Option ℕ)
    (law : (n : ℕ) → n < 2 ^ 64 → parse (print n) ≡ some n) where
  canary_part :
      (path : Option String) (tls : Bool) (secs : Option ℕ) (role : Option String)
      → IsWord secs
      → parse_flags parse (canary_args print secs ++ role_args print role) (req path tls none none)
        ≡ Parsed.request (req path tls secs role)
  unfolding parse_flags
  canary_part path tls none none b = refl
  canary_part path tls none (some role) b = refl
  canary_part path tls (some n) none b = ground (arith, law n b)
  canary_part path tls (some n) (some role) b = ground (arith, law n b)

  tls_part :
      (path : Option String) (tls : Bool) (secs : Option ℕ) (role : Option String)
      → IsWord secs
      → parse_flags parse
          (tls_args print tls ++ (canary_args print secs ++ role_args print role))
          (req path false none none)
        ≡ Parsed.request (req path tls secs role)
  unfolding parse_flags
  tls_part path false secs role b = canary_part path false secs role b
  tls_part path true none none b = refl
  tls_part path true none (some role) b = canary_part path true none (some role) b
  tls_part path true (some n) role b = canary_part path true (some n) role b

  path_part :
      (path : Option String) (tls : Bool) (secs : Option ℕ) (role : Option String)
      → IsWord secs
      → parse_flags parse (args_of print (req path tls secs role)) no_flags
        ≡ Parsed.request (req path tls secs role)
  unfolding parse_flags
  path_part none tls secs role b = tls_part none tls secs role b
  path_part (some path) tls secs role b = tls_part (some path) tls secs role b

  -- Every request, whatever its path, its worker and its seconds, is what the command line makes of the
  -- arguments that write it down, if a number below 2^64 is read back as it is printed.
  pub parse_flags-args_of :
      (r : RollingUpgradeRequest)
      → IsWord r.canary_secs
      → parse_flags parse (args_of print r) no_flags ≡ Parsed.request r
  parse_flags-args_of r b = path_part r.binary_path r.include_tls r.canary_secs r.only_role b
