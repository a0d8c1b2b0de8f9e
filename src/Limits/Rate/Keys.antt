-- ===== src/Limits/Rate/Keys.antt =====
-- limits.rs, `RateLimiter`: what each operation does to the table, address by address.
use five_nines_echo.Base.{
  ℕ, ◌-◌, ◌<◌, ◌≡◌, refl, ◌∙◌, ◌≢◌, inl, inr, Bool, true, false, some, lookup, Unique, Bool-cases,
  arith, filter_entry, lookup-keep, keep-Unique, lookup-insert, insert-Unique, lookup-remove,
  remove-Unique, ◌==◌,
}
use five_nines_echo.Limits.Address.{IpAddr, ip_beq_iff, ip_key}
use five_nines_echo.Limits.Rate.{
  Bucket, LimiterInner, token, is_fresh, evict_idle_buckets, evict_at_cap, take, is_full_for,
  make_room, after_room, try_take_at,
}
use five_nines_echo.Limits.Rate.Evict.{Evicts, refuses, evicts, evict_at_cap-Evicts}

pub lookup-evict_idle_buckets :
    (now idle_ttl : ℕ) (s : LimiterInner) (j : IpAddr)
    → Unique s.buckets
    → lookup j (evict_idle_buckets now idle_ttl s).buckets
      ≡ filter_entry (is_fresh now idle_ttl) j (lookup j s.buckets)
unfolding evict_idle_buckets
lookup-evict_idle_buckets now idle_ttl s j u = lookup-keep (is_fresh now idle_ttl) j s.buckets u

pub evict_idle_buckets-Unique :
    (now idle_ttl : ℕ) (s : LimiterInner)
    → Unique s.buckets
    → Unique (evict_idle_buckets now idle_ttl s).buckets
unfolding evict_idle_buckets
evict_idle_buckets-Unique now idle_ttl s u = keep-Unique (is_fresh now idle_ttl) s.buckets u

pub evict_at_cap-Unique : (s : LimiterInner) → Unique s.buckets → Unique (evict_at_cap s).0.buckets
evict_at_cap-Unique s u = go (evict_at_cap s) (evict_at_cap-Evicts s u)
  where
    go : (r : LimiterInner × Bool) → Evicts s r → Unique r.0.buckets
    go _ (refuses all) = u
    go _ (evicts ip b found h beats) = remove-Unique ip s.buckets u

-- A throttled bucket outlives `evict_at_cap`.
pub evict_at_cap-IsThrottled :
    (s : LimiterInner) (j : IpAddr) (b : Bucket)
    → Unique s.buckets
    → lookup j s.buckets ≡ some b
    → b.tokens < token
    → lookup j (evict_at_cap s).0.buckets ≡ some b
evict_at_cap-IsThrottled s j b u e h = go (evict_at_cap s) (evict_at_cap-Evicts s u)
  where
    go : (r : LimiterInner × Bool) → Evicts s r → lookup j r.0.buckets ≡ some b
    go _ (refuses all) = e
    go _ (evicts ip b' found h' beats) =
        ground (arith, lookup-remove ip j s.buckets u, ip_beq_iff ip j)

pub lookup-take :
    (now capacity rate : ℕ) (ip j : IpAddr) (s : LimiterInner)
    → (ip == j) ≡ false
    → lookup j (take now capacity rate ip s).0.buckets ≡ lookup j s.buckets
unfolding take
lookup-take now capacity rate ip j s h = lookup-insert ip j _ s.buckets ∙ rw h

pub take-Unique :
    (now capacity rate : ℕ) (ip : IpAddr) (s : LimiterInner)
    → Unique s.buckets
    → Unique (take now capacity rate ip s).0.buckets
unfolding take
take-Unique now capacity rate ip s u = insert-Unique ip _ s.buckets u

pub make_room-Unique :
    (max_tracked : ℕ) (ip : IpAddr) (s : LimiterInner)
    → Unique s.buckets
    → Unique (make_room max_tracked ip s).0.buckets
make_room-Unique max_tracked ip s u = elim (Bool-cases (is_full_for max_tracked ip s.buckets)) [
  | inl full ↦ rw full (evict_at_cap-Unique s u)
  | inr fits ↦ rw fits u
]

pub after_room-Unique :
    (now capacity rate : ℕ) (ip : IpAddr) (r : LimiterInner × Bool)
    → Unique r.0.buckets
    → Unique (after_room now capacity rate ip r).0.buckets
after_room-Unique now capacity rate ip (s, true) u = take-Unique now capacity rate ip s u
after_room-Unique now capacity rate ip (s, false) u = u

pub try_take_at-Unique :
    (now : ℕ) (ip : IpAddr) (capacity rate idle_ttl max_tracked : ℕ) (s : LimiterInner)
    → Unique s.buckets
    → Unique (try_take_at now ip capacity rate idle_ttl max_tracked s).0.buckets
unfolding try_take_at
try_take_at-Unique now ip capacity rate idle_ttl max_tracked s u =
    after_room-Unique now capacity rate ip
      (make_room max_tracked ip (evict_idle_buckets now idle_ttl s))
      (make_room-Unique max_tracked ip (evict_idle_buckets now idle_ttl s)
        (evict_idle_buckets-Unique now idle_ttl s u))

make_room-IsThrottled :
    (max_tracked : ℕ) (ip : IpAddr) (s : LimiterInner) (j : IpAddr) (b : Bucket)
    → Unique s.buckets
    → lookup j s.buckets ≡ some b
    → b.tokens < token
    → lookup j (make_room max_tracked ip s).0.buckets ≡ some b
make_room-IsThrottled max_tracked ip s j b u e h =
    elim (Bool-cases (is_full_for max_tracked ip s.buckets)) [
      | inl full ↦ rw full (evict_at_cap-IsThrottled s j b u e h)
      | inr fits ↦ rw fits e
    ]

after_room_other :
    (now capacity rate : ℕ) (ip j : IpAddr) (r : LimiterInner × Bool)
    → (ip == j) ≡ false
    → lookup j (after_room now capacity rate ip r).0.buckets ≡ lookup j r.0.buckets
after_room_other now capacity rate ip j (s, true) h = lookup-take now capacity rate ip j s h
after_room_other now capacity rate ip j (s, false) h = refl

-- No accept frees another address from its throttle: a bucket with less than one token that was
-- touched within the idle time is in the table, unchanged, after any `try_take_at` of another address.
pub try_take_at-IsThrottled :
    (now : ℕ) (ip : IpAddr) (capacity rate idle_ttl max_tracked : ℕ) (s : LimiterInner) (j : IpAddr)
    (b : Bucket)
    → Unique s.buckets
    → ip ≢ j
    → lookup j s.buckets ≡ some b
    → b.tokens < token
    → now - b.last_touch < idle_ttl
    → lookup j (try_take_at now ip capacity rate idle_ttl max_tracked s).0.buckets ≡ some b
unfolding try_take_at
try_take_at-IsThrottled now ip capacity rate idle_ttl max_tracked s j b u ne e low recent =
    after_room_other now capacity rate ip j (make_room max_tracked ip kept)
      (ground (arith, ip_beq_iff ip j))
    ∙ make_room-IsThrottled max_tracked ip kept j b (evict_idle_buckets-Unique now idle_ttl s u)
        (ground (arith, lookup-evict_idle_buckets now idle_ttl s j u)) low
  where
    kept : LimiterInner
    kept = evict_idle_buckets now idle_ttl s
