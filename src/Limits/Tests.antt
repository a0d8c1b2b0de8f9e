-- ===== src/Limits/Tests.antt =====
-- limits.rs: runs of the model on the inputs of the source's own tests, and the theorems at concrete
-- inputs.
use five_nines_echo.Base.{
  ℕ, ◌+◌, ◌*◌, ◌-◌, ◌≤◌, ◌<◌, ◌≡◌, refl, false, none, some, List, [], ◌∷◌, arith, lookup,
}
use five_nines_echo.Base.Words.{u64, from_secs}
use five_nines_echo.Limits.Address.{IpAddr, ip_beq, ip_key}
use five_nines_echo.Limits.Session.{Task, step, run, start, act}
use five_nines_echo.Limits.Session.Bound.{guards, guards-le-cap}
use five_nines_echo.Limits.Rate.{
  Bucket, Buckets, LimiterInner, token, evict_idle_buckets, scan, evict_at_cap, take, try_take_at,
}
use five_nines_echo.Limits.Rate.Evict.{Evicts, evict_at_cap-Evicts}
use five_nines_echo.Limits.Rate.Keys.{try_take_at-IsThrottled}
use five_nines_echo.Limits.Rate.Bounds.{Bounded, try_take_at-Bounded}
use five_nines_echo.Limits.Rate.Supply.{supply, admitted, admitted_le_supply}
use five_nines_echo.Limits.Rate.Stale.{try_take_at-refuses}

-- Two tasks at a cap of one: both load, the first swaps, the second fails and is refused.
abbrev race : List ℕ
race = 0 ∷ 1 ∷ 0 ∷ 1 ∷ 1 ∷ []

race_tasks : (run (start 1 2) race).tasks ≡ Task.holding ∷ Task.refused ∷ []
unfolding run step act
race_tasks = refl

guards-le-cap_example :
    ((run (start 1 2) race).shared.in_flight ≡ guards (run (start 1 2) race))
    × (0 < 1 → guards (run (start 1 2) race) ≤ 1)
guards-le-cap_example = guards-le-cap 1 2 race (omega arith)

abbrev alice : IpAddr
alice = IpAddr.v4 1

abbrev bob : IpAddr
bob = IpAddr.v4 2

abbrev carol : IpAddr
carol = IpAddr.v6 3

abbrev bucket : ℕ → ℕ → Bucket
bucket tokens touched = record { tokens = tokens; last_refill = touched; last_touch = touched }

abbrev holding : Buckets → LimiterInner
holding m = record { buckets = m; idle_evictions = 0; lru_evictions = 0; cap_refused = 0 }

-- Alice is throttled, Bob is not.
abbrev mixed : LimiterInner
mixed = holding ((alice, bucket 0 5) ∷ (bob, bucket (2 * token) 6) ∷ [])

evict_at_cap-Evicts_example : Evicts mixed (evict_at_cap mixed)
unfolding ip_beq
evict_at_cap-Evicts_example = evict_at_cap-Evicts mixed (refl, (refl, tt))

-- The address with a token to spare makes room.
drops_bob : lookup bob (evict_at_cap mixed).0.buckets ≡ none
unfolding evict_at_cap scan ip_beq
drops_bob = refl

try_take_at-IsThrottled_example :
    lookup alice (try_take_at 9 carol (2 * token) 1 (from_secs 300) 2 mixed).0.buckets
    ≡ some (bucket 0 5)
unfolding ip_beq
try_take_at-IsThrottled_example =
    try_take_at-IsThrottled 9 carol (2 * token) 1 (from_secs 300) 2 mixed alice (bucket 0 5)
      (refl, (refl, tt)) (λ e. ground arith) refl (omega arith) (omega arith)

try_take_at-Bounded_example :
    Bounded (2 * token) 2 (try_take_at 9 carol (2 * token) 1 (from_secs 300) 2 mixed).0.buckets
unfolding ip_beq
try_take_at-Bounded_example =
    try_take_at-Bounded 9 carol (2 * token) 1 (from_secs 300) 2 mixed (refl, (refl, tt))
      (record { few = λ p. omega arith; filled = (omega arith, (omega arith, tt)) })

-- Five calls of two addresses in one second, with a burst of two and a rate of one.
abbrev calls : List (ℕ × IpAddr)
calls = (0, alice) ∷ (0, alice) ∷ (1, alice) ∷ (2, bob) ∷ (from_secs 1, alice) ∷ []

-- Alice gets her burst of two and the one token that a second refills.
alice_gets_three : admitted (2 * token) 1 (from_secs 300) alice calls (holding []) ≡ 3
unfolding admitted try_take_at evict_idle_buckets take ip_beq
alice_gets_three = refl

admitted_le_supply_example :
    admitted (2 * token) 1 (from_secs 300) alice calls (holding []) * token
    ≤ supply 0 (2 * token) 1 (lookup alice []) + (from_secs 1 - 0) * 1
admitted_le_supply_example =
    admitted_le_supply (2 * token) 1 (from_secs 300) 0 (from_secs 1) alice calls (holding []) tt
      (omega arith) tt
      (omega arith, (omega arith, (omega arith, (omega arith, (omega arith, omega arith)))))

-- Both buckets were emptied at second 0; at second 299 each would be full again.
abbrev drained : LimiterInner
drained = holding ((alice, bucket 0 0) ∷ (bob, bucket 0 0) ∷ [])

try_take_at-refuses_example :
    let (s', ok) = try_take_at (from_secs 299) carol (2 * token) 50 (from_secs 300) 2 drained in
    (ok ≡ false) × (s'.buckets ≡ drained.buckets) × (s'.cap_refused ≡ u64 (0 + 1))
unfolding ip_beq
try_take_at-refuses_example =
    try_take_at-refuses (from_secs 299) carol (2 * token) 50 (from_secs 300) 2 drained
      (omega arith, (omega arith, tt)) (omega arith, (omega arith, tt)) refl
