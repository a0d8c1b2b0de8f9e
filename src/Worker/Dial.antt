-- ===== src/Worker/Dial.antt =====
-- worker_common/dial.rs, `dial_control_plane`: the attempts of a worker to reach its supervisor.
use five_nines_echo.Base.{
  ℕ, zero, suc, ◌+◌, ◌*◌, ◌-◌, ◌≤◌, ◌≡◌, Bool, Option, none, some, ltb, if◌then◌else◌, arith,
}

-- Milliseconds.
abbrev delay : ℕ → ℕ
delay attempt = if ltb attempt 5 then 100 else 300

-- So many attempts from one on, by which of them connect: the one that does, and how long was slept.
unfoldable dial_from : (ℕ → Bool) → ℕ → ℕ → Option ℕ × ℕ
dial_from connects zero attempt = (none, 0)
dial_from connects (suc left) attempt =
    let rest = dial_from connects left (suc attempt) in
    if connects attempt then (some attempt, 0) else (rest.0, delay attempt + rest.1)

unfoldable dial_control_plane : (ℕ → Bool) → Option ℕ × ℕ
dial_control_plane connects = dial_from connects 50 0

dial_from-slept :
    (connects : ℕ → Bool) (left attempt : ℕ)
    → attempt + left ≡ 50
    → (dial_from connects left attempt).1 + 200 * (5 - attempt) ≤ 300 * left
unfolding dial_from
dial_from-slept connects zero attempt e = omega arith
dial_from-slept connects (suc left) attempt e =
    ground (arith, dial_from-slept connects left (suc attempt) (omega arith))

-- A worker sleeps for fourteen seconds at most before it is connected or gives up.
dial_control_plane-slept : (connects : ℕ → Bool) → (dial_control_plane connects).1 ≤ 14000
unfolding dial_control_plane
dial_control_plane-slept connects = omega (arith, dial_from-slept connects 50 0 (omega arith))
