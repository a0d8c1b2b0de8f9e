-- ===== src/Scanner/Requests.antt =====
-- scanner/upgrade.rs: the scanner's own upgrade waits for its requests, but not for long.
use five_nines_echo.Base.{
  ℕ, ◌≤◌, ◌<◌, ◌≡◌, ◌≢◌, ◌⊎◌, refl, Bool, true, some, List, [], ◌∷◌, ltb, nat_beq, arith, any,
  Bool-cases, inl, inr,
}
use five_nines_echo.Scanner.{drain_requests}

abbrev pub late : ℕ → ℕ × ℕ → Bool
late deadline poll = ltb deadline poll.0

-- Why the wait ends: a poll found nothing in flight, or one past the deadline found so many.
abbrev pub Explained : ℕ → List (ℕ × ℕ) → ℕ → Type 0
Explained deadline [] left = ⊥
Explained deadline ((now, count) ∷ polls) left =
    ((count ≡ 0) × (left ≡ 0))
    ⊎ ((count ≢ 0) × (deadline < now) × (left ≡ count))
    ⊎ ((count ≢ 0) × (now ≤ deadline) × Explained deadline polls left)

drain_requests-Explained :
    (deadline : ℕ) (polls : List (ℕ × ℕ)) (left : ℕ)
    → drain_requests deadline polls ≡ some left
    → Explained deadline polls left
unfolding drain_requests
drain_requests-Explained deadline [] left e = cc
drain_requests-Explained deadline ((now, count) ∷ polls) left e =
    ground (arith, drain_requests-Explained deadline polls left)

-- The wait for the requests in flight ends by the first poll past its deadline at the latest.
drain_requests_ends :
    (deadline : ℕ) (polls : List (ℕ × ℕ))
    → any (late deadline) polls ≡ true
    → (left : ℕ) × (drain_requests deadline polls ≡ some left)
unfolding drain_requests
drain_requests_ends deadline [] e = cc
drain_requests_ends deadline ((now, count) ∷ polls) e = elim (Bool-cases (nat_beq count 0)) [
  | inl z ↦ (0, rw z refl)
  | inr p ↦ elim (Bool-cases (ltb deadline now)) [
    | inl l ↦ (count, rw (p, l) refl)
    | inr f ↦ let (left, d) = drain_requests_ends deadline polls (rw f at e) in (left, rw (p, f) d)
  ]
]

-- Where some poll of the scanner's upgrade is past its deadline, the wait for the requests in flight
-- comes to an end, and with a reason: a poll that found none, which leaves none, or a poll past the
-- deadline, which abandons as many as it found; and all polls before it found some and were not past
-- the deadline.
pub drain_requests_total :
    (deadline : ℕ) (polls : List (ℕ × ℕ))
    → any (late deadline) polls ≡ true
    → (left : ℕ) × (drain_requests deadline polls ≡ some left) × Explained deadline polls left
drain_requests_total deadline polls e =
    let (left, d) = drain_requests_ends deadline polls e in
    (left, d, drain_requests-Explained deadline polls left d)
