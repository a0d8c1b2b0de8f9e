-- ===== src/Limits/Rate/Stale.antt =====
-- limits.rs, `RateLimiter`: what a full limiter answers an address it does not track.
use five_nines_echo.Base.{
  ℕ, ◌+◌, ◌-◌, ◌<◌, ◌≡◌, refl, Bool, true, false, none, some, [], ◌∷◌, leb, if◌then◌else◌, keep,
  length, All, arith,
}
use five_nines_echo.Base.Words.{u64}
use five_nines_echo.Limits.Address.{IpAddr, ip_key}
use five_nines_echo.Limits.Rate.{
  Bucket, Buckets, LimiterInner, Candidate, token, better, is_fresh, evict_idle_buckets, scan,
  evict_at_cap, drop_candidate, is_full_for, try_take_at,
}
use five_nines_echo.Limits.Rate.Evict.{IsThrottled}

-- Touched within the idle time.
abbrev pub IsRecent : ℕ → ℕ → IpAddr × Bucket → Type 0
IsRecent now idle_ttl (_, b) = now - b.last_touch < idle_ttl

keep_recent :
    (now idle_ttl : ℕ) (m : Buckets)
    → All (IsRecent now idle_ttl) m
    → keep (is_fresh now idle_ttl) m ≡ m
keep_recent now idle_ttl [] h = refl
keep_recent now idle_ttl ((ip, b) ∷ m) h = ground (arith, keep_recent now idle_ttl m h.1)

scan_throttled : (best : Candidate) (m : Buckets) → All IsThrottled m → (scan best true m).1 ≡ true
unfolding scan
scan_throttled best [] h = refl
scan_throttled best ((ip, b) ∷ m) h =
    let low : leb token b.tokens ≡ false = ground (arith, h.0) in
    rw (scan, low)
      (scan_throttled (if better b best then some (ip, b.tokens, b.last_touch) else best) m h.1)

drop_throttled :
    (s : LimiterInner) (r : Candidate × Bool) → r.1 ≡ true → drop_candidate s r ≡ (s, false)
drop_throttled s (best, true) h = refl
drop_throttled s (best, false) h = cc

evict_at_cap_throttled :
    (s : LimiterInner) → All IsThrottled s.buckets → evict_at_cap s ≡ (s, false)
unfolding evict_at_cap
evict_at_cap_throttled s h =
    drop_throttled s (scan none true s.buckets) (scan_throttled none s.buckets h)

-- A full limiter refuses an address it does not track, and counts the refusal, whenever each bucket
-- it stores was left with less than one token and was touched within the idle time. How much the
-- buckets have refilled since makes no difference: `now` is bounded by the idle time only.
pub try_take_at-refuses :
    (now : ℕ) (ip : IpAddr) (capacity rate idle_ttl max_tracked : ℕ) (s : LimiterInner)
    → All IsThrottled s.buckets
    → All (IsRecent now idle_ttl) s.buckets
    → is_full_for max_tracked ip s.buckets ≡ true
    → let (s', ok) = try_take_at now ip capacity rate idle_ttl max_tracked s in
      (ok ≡ false) × (s'.buckets ≡ s.buckets) × (s'.cap_refused ≡ u64 (s.cap_refused + 1))
unfolding try_take_at evict_idle_buckets
try_take_at-refuses now ip capacity rate idle_ttl max_tracked s low recent full =
    let same = keep_recent now idle_ttl s.buckets recent in
    let kept : LimiterInner = record s {
      idle_evictions = u64 (s.idle_evictions + (length s.buckets - length s.buckets));
    } in
    rw same (rw full (rw (evict_at_cap_throttled kept low) (refl, refl, refl)))
