-- ===== src/Auth/Tests.antt =====
-- auth.rs: the theorem at a concrete input.
use five_nines_echo.Base.{ℕ, Option, ◌≡◌, ◌↔◌, inr, some, [], ◌∷◌}
use five_nines_echo.Auth.{check_peer, from_config}
use five_nines_echo.Auth.Reload.{Allowed, check_peer-Allowed}

check_peer-Allowed_example :
    (check_peer (some 7) (from_config 1000 (0 ∷ 7 ∷ [])) ≡ inr 7)
    ↔ ((◌≡◌ {A = Option ℕ} (some 7) (some 7)) × Allowed 1000 (0 ∷ 7 ∷ []) 7)
check_peer-Allowed_example = check_peer-Allowed 1000 (0 ∷ 7 ∷ []) (some 7) 7
