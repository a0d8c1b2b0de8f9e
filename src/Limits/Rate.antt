-- ===== src/Limits/Rate.antt =====
-- limits.rs, `RateLimiter`: a token bucket for each address, in bounded memory. Instants are
-- nanoseconds. Tokens are exact: a number counts billionths of a token, so that a rate of r tokens a
-- second adds r of them in a nanosecond. The source keeps them as `f64`, whose rounding is left out.
pub mod Evict
pub mod Keys
pub mod Supply
pub mod Bounds
pub mod Stale
use five_nines_echo.Base.{
  ℕ, ◌+◌, ◌-◌, ◌*◌, max, min, ◌≡◌, refl, Bool, true, false, not, ◌&&◌, ◌||◌, Option, none, some,
  List, [], ◌∷◌, ltb, leb, nat_beq, if◌then◌else◌, length, keep, lookup, insert, remove,
  contains_key, Key,
}
use five_nines_echo.Base.Words.{u64, from_secs}
use five_nines_echo.Limits.Address.{IpAddr, ip_key}

-- One token.
abbrev pub token : ℕ
token = 1000000000

pub record Bucket : Type 0 where
  pub tokens : ℕ
  pub last_refill : ℕ
  pub last_touch : ℕ

abbrev pub Buckets : Type 0
Buckets = List (IpAddr × Bucket)

pub record LimiterInner : Type 0 where
  pub buckets : Buckets
  pub idle_evictions : ℕ
  pub lru_evictions : ℕ
  pub cap_refused : ℕ

pub record RateLimiter : Type 0 where
  pub inner : LimiterInner
  pub capacity : ℕ
  pub refill_per_sec : ℕ
  pub idle_ttl : ℕ
  pub max_tracked : ℕ

abbrev pub with_limits : ℕ → ℕ → ℕ → ℕ → RateLimiter
with_limits refill_per_sec burst max_tracked idle_ttl_secs = record {
  inner = record { buckets = []; idle_evictions = 0; lru_evictions = 0; cap_refused = 0 };
  capacity = max burst 1 * token;
  refill_per_sec = refill_per_sec;
  idle_ttl = from_secs idle_ttl_secs;
  max_tracked = max_tracked;
}

abbrev pub enabled : RateLimiter → Bool
enabled r = ltb 0 r.refill_per_sec

-- `duration_since` saturates at zero, as `-` does.
abbrev pub is_fresh : ℕ → ℕ → IpAddr × Bucket → Bool
is_fresh now idle_ttl (ip, b) = ltb (now - b.last_touch) idle_ttl

unfoldable pub evict_idle_buckets : ℕ → ℕ → LimiterInner → LimiterInner
evict_idle_buckets now idle_ttl s =
    let rest = keep (is_fresh now idle_ttl) s.buckets in
    record s {
      buckets = rest;
      idle_evictions = u64 (s.idle_evictions + (length s.buckets - length rest));
    }

-- The loop of `evict_at_cap`: the best candidate so far and whether all are throttled so far.
abbrev pub Candidate : Type 0
Candidate = Option (IpAddr × ℕ × ℕ)

-- More tokens win; with as many, the older touch.
abbrev pub better : Bucket → Candidate → Bool
better b none = true
better b (some (_, best_tokens, best_touch)) =
    ltb best_tokens b.tokens || (nat_beq b.tokens best_tokens && ltb b.last_touch best_touch)

unfoldable pub scan : Candidate → Bool → Buckets → Candidate × Bool
scan best all_throttled [] = (best, all_throttled)
scan best all_throttled ((ip, b) ∷ m) =
    scan (if better b best then some (ip, b.tokens, b.last_touch) else best)
      (if leb token b.tokens then false else all_throttled) m

abbrev pub drop_candidate : LimiterInner → Candidate × Bool → LimiterInner × Bool
drop_candidate s (best, true) = (s, false)
drop_candidate s (none, false) = (s, false)
drop_candidate s (some (ip, _, _), false) =
    (record s { buckets = remove ip s.buckets; lru_evictions = u64 (s.lru_evictions + 1) }, true)

unfoldable pub evict_at_cap : LimiterInner → LimiterInner × Bool
unfolding scan
evict_at_cap s = drop_candidate s (scan none true s.buckets)

-- `or_insert_with`
abbrev pub or_new : ℕ → ℕ → Option Bucket → Bucket
or_new now capacity none = record { tokens = capacity; last_refill = now; last_touch = now }
or_new now capacity (some b) = b

abbrev pub entry_or_new : ℕ → ℕ → IpAddr → Buckets → Bucket
entry_or_new now capacity ip m = or_new now capacity (lookup ip m)

abbrev pub refilled : ℕ → ℕ → ℕ → Bucket → ℕ
refilled now capacity rate b = min (b.tokens + (now - b.last_refill) * rate) capacity

-- Refill the address' bucket, and take a token if there is one.
unfoldable pub take : ℕ → ℕ → ℕ → IpAddr → LimiterInner → LimiterInner × Bool
take now capacity rate ip s =
    let t = refilled now capacity rate (entry_or_new now capacity ip s.buckets) in
    let ok = leb token t in
    let b : Bucket = record {
      tokens = if ok then t - token else t;
      last_refill = now;
      last_touch = now;
    } in
    (record s { buckets = insert ip b s.buckets }, ok)

-- The limiter holds as many addresses as it may, and this one is not among them.
abbrev pub is_full_for : ℕ → IpAddr → Buckets → Bool
is_full_for max_tracked ip m =
    ltb 0 max_tracked && leb max_tracked (length m) && not (contains_key ip m)

abbrev after_room : ℕ → ℕ → ℕ → IpAddr → LimiterInner × Bool → LimiterInner × Bool
after_room now capacity rate ip (s, true) = take now capacity rate ip s
after_room now capacity rate ip (s, false) =
    (record s { cap_refused = u64 (s.cap_refused + 1) }, false)

-- Room for the address: `evict_at_cap` runs only where the limiter is full for it.
abbrev pub make_room : ℕ → IpAddr → LimiterInner → LimiterInner × Bool
make_room max_tracked ip s =
    if is_full_for max_tracked ip s.buckets then evict_at_cap s else (s, true)

unfoldable pub try_take_at :
    (now : ℕ) (ip : IpAddr) (capacity rate idle_ttl max_tracked : ℕ)
    → LimiterInner
    → LimiterInner × Bool
try_take_at now ip capacity rate idle_ttl max_tracked s =
    after_room now capacity rate ip (make_room max_tracked ip (evict_idle_buckets now idle_ttl s))

pub try_take : ℕ → IpAddr → RateLimiter → RateLimiter × Bool
try_take now ip r = if enabled r then (record r { inner = result.0 }, result.1) else (r, true)
  where
    result : LimiterInner × Bool
    result = try_take_at now ip r.capacity r.refill_per_sec r.idle_ttl r.max_tracked r.inner

pub stats : RateLimiter → ℕ × ℕ × ℕ × ℕ
stats r =
    (length r.inner.buckets, r.inner.idle_evictions, r.inner.lru_evictions, r.inner.cap_refused)
