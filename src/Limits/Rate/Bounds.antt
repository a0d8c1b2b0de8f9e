-- ===== src/Limits/Rate/Bounds.antt =====
-- limits.rs, `RateLimiter`: memory and tokens stay bounded, and what the counters count.
use five_nines_echo.Base.{
  ℕ, ◌≤◌, ◌<◌, ◌≡◌, ◌⊎◌, inl, inr, Bool, true, false, contains_key, length, Unique, All, Bool-cases,
  arith, lookup_present, length-insert, length-remove, length-keep-le, All-keep, All-insert,
  All-remove,
}
use five_nines_echo.Limits.Address.{IpAddr, ip_key}
use five_nines_echo.Limits.Rate.{
  Bucket, Buckets, LimiterInner, is_fresh, evict_idle_buckets, evict_at_cap, take, is_full_for,
  make_room, after_room, try_take_at,
}
use five_nines_echo.Limits.Rate.Evict.{Evicts, refuses, evicts, evict_at_cap-Evicts}
use five_nines_echo.Limits.Rate.Keys.{evict_idle_buckets-Unique}

abbrev pub WithinCapacity : ℕ → IpAddr × Bucket → Type 0
WithinCapacity capacity (_, b) = b.tokens ≤ capacity

-- The bounds of a limiter that may track `max_tracked` addresses, any number if that is 0.
pub record Bounded (capacity max_tracked : ℕ) (m : Buckets) : Type 0 where
  pub few : 0 < max_tracked → length m ≤ max_tracked
  pub filled : All (WithinCapacity capacity) m

evict_idle_buckets-Bounded :
    (capacity max_tracked now idle_ttl : ℕ) (s : LimiterInner)
    → Bounded capacity max_tracked s.buckets
    → Bounded capacity max_tracked (evict_idle_buckets now idle_ttl s).buckets
unfolding evict_idle_buckets
evict_idle_buckets-Bounded capacity max_tracked now idle_ttl s v = record {
  few = λ p. omega (arith, v.few, length-keep-le (is_fresh now idle_ttl) s.buckets);
  filled = All-keep (WithinCapacity capacity) (is_fresh now idle_ttl) s.buckets v.filled;
}

-- After room was made there is place for the address, or it is refused.
abbrev HasPlace : ℕ → IpAddr → LimiterInner × Bool → Type 0
HasPlace max_tracked ip (s, false) = Unit
HasPlace max_tracked ip (s, true) =
    0 < max_tracked → (contains_key ip s.buckets ≡ true) ⊎ (length s.buckets < max_tracked)

evicted-Bounded :
    (capacity max_tracked : ℕ) (ip : IpAddr) (s : LimiterInner) (r : LimiterInner × Bool)
    → Bounded capacity max_tracked s.buckets
    → Evicts s r
    → Bounded capacity max_tracked r.0.buckets × HasPlace max_tracked ip r
evicted-Bounded capacity max_tracked ip s _ v (refuses all) = (v, tt)
evicted-Bounded capacity max_tracked ip s _ v (evicts jp b found h beats) =
    let gone = length-remove jp s.buckets (lookup_present jp s.buckets b found) in
    (
      record {
        few = λ p. omega (arith, gone, v.few);
        filled = All-remove (WithinCapacity capacity) jp s.buckets v.filled;
      },
      λ p. inr (omega (arith, gone, v.few)),
    )

make_room-Bounded :
    (capacity max_tracked : ℕ) (ip : IpAddr) (s : LimiterInner)
    → Unique s.buckets
    → Bounded capacity max_tracked s.buckets
    → Bounded capacity max_tracked (make_room max_tracked ip s).0.buckets
      × HasPlace max_tracked ip (make_room max_tracked ip s)
make_room-Bounded capacity max_tracked ip s u v =
    elim (Bool-cases (is_full_for max_tracked ip s.buckets)) [
      | inl full ↦
          rw full
            (evicted-Bounded capacity max_tracked ip s (evict_at_cap s) v (evict_at_cap-Evicts s u))
      | inr fits ↦ rw fits (v, λ p. ground arith)
    ]

take-Bounded :
    (now capacity rate max_tracked : ℕ) (ip : IpAddr) (s : LimiterInner)
    → Bounded capacity max_tracked s.buckets
    → HasPlace max_tracked ip (s, true)
    → Bounded capacity max_tracked (take now capacity rate ip s).0.buckets
unfolding take
take-Bounded now capacity rate max_tracked ip s v place = record {
  few = λ p. rw (length-insert ip _ s.buckets) (ground (arith, place p, v.few p));
  filled = All-insert (WithinCapacity capacity) ip _ s.buckets (ground arith) v.filled;
}

after_room-Bounded :
    (now capacity rate max_tracked : ℕ) (ip : IpAddr) (r : LimiterInner × Bool)
    → Bounded capacity max_tracked r.0.buckets
    → HasPlace max_tracked ip r
    → Bounded capacity max_tracked (after_room now capacity rate ip r).0.buckets
after_room-Bounded now capacity rate max_tracked ip (s, true) v place =
    take-Bounded now capacity rate max_tracked ip s v place
after_room-Bounded now capacity rate max_tracked ip (s, false) v place = v

-- Every call keeps the table within the number of addresses that may be tracked, and every bucket
-- within the capacity, in a table with each address once.
pub try_take_at-Bounded :
    (now : ℕ) (ip : IpAddr) (capacity rate idle_ttl max_tracked : ℕ) (s : LimiterInner)
    → Unique s.buckets
    → Bounded capacity max_tracked s.buckets
    → Bounded capacity max_tracked
        (try_take_at now ip capacity rate idle_ttl max_tracked s).0.buckets
unfolding try_take_at
try_take_at-Bounded now ip capacity rate idle_ttl max_tracked s u v =
    let kept = evict_idle_buckets now idle_ttl s in
    let r =
      make_room-Bounded capacity max_tracked ip kept (evict_idle_buckets-Unique now idle_ttl s u)
        (evict_idle_buckets-Bounded capacity max_tracked now idle_ttl s v) in
    after_room-Bounded now capacity rate max_tracked ip (make_room max_tracked ip kept) r.0 r.1
