-- ===== src/Limits/Rate/Supply.antt =====
-- limits.rs, `RateLimiter`: how many accepts one address can get in a span of time.
use five_nines_echo.Base.{
  ℕ, suc, ◌+◌, ◌-◌, ◌*◌, ◌≤◌, ◌≡◌, refl, ◌∙◌, inl, inr, Bool, true, false, ◌&&◌, Option, none, some,
  List, [], ◌∷◌, leb, if◌then◌else◌, lookup, Unique, All, Bool-cases, arith, ◌==◌, ==_refl,
  filter_entry, lookup-insert, All-keep, All-insert, All-lookup,
}
use native.Mathlib.Nat.{add-mul, mul-le-mul}
use five_nines_echo.Limits.Address.{IpAddr, ip_beq_iff, ip_key}
use five_nines_echo.Limits.Rate.{
  Bucket, Buckets, LimiterInner, token, is_fresh, evict_idle_buckets, or_new, refilled, take,
  try_take_at,
}
use five_nines_echo.Limits.Rate.Keys.{lookup-evict_idle_buckets, lookup-take, try_take_at-Unique}

refilled_later :
    (clock now capacity rate : ℕ) (b : Bucket)
    → b.last_refill ≤ clock
    → clock ≤ now
    → refilled now capacity rate b ≤ refilled clock capacity rate b + (now - clock) * rate
refilled_later clock now capacity rate b h k =
    let e : now - b.last_refill ≡ (clock - b.last_refill) + (now - clock) = omega arith in
    let p : (now - b.last_refill) * rate ≡ (clock - b.last_refill) * rate + (now - clock) * rate =
      rw e (add-mul (clock - b.last_refill) (now - clock) rate) in
    omega arith

-- Every bucket was last refilled when it was last touched, no later than the clock.
abbrev pub SyncedBy : ℕ → IpAddr × Bucket → Type 0
SyncedBy clock (_, b) = (b.last_refill ≡ b.last_touch) × (b.last_touch ≤ clock)

-- What an address could take at once: the tokens of its bucket, refilled, or a full bucket.
abbrev pub supply : ℕ → ℕ → ℕ → Option Bucket → ℕ
supply now capacity rate none = capacity
supply now capacity rate (some b) = refilled now capacity rate b

-- Losing an idle bucket is no gain, if the idle time refills a bucket.
idle_is_full :
    (now idle_ttl capacity rate : ℕ) (b : Bucket)
    → capacity ≤ idle_ttl * rate
    → b.last_refill ≡ b.last_touch
    → idle_ttl ≤ now - b.last_touch
    → refilled now capacity rate b ≡ capacity
idle_is_full now idle_ttl capacity rate b full same idle =
    let p : idle_ttl * rate ≤ (now - b.last_refill) * rate =
      mul-le-mul (omega arith) (omega arith) in
    omega arith

supply-filter :
    (clock now idle_ttl capacity rate : ℕ) (a : IpAddr) (o : Option Bucket)
    → capacity ≤ idle_ttl * rate
    → clock ≤ now
    → ((b : Bucket) → o ≡ some b → SyncedBy clock (a, b))
    → supply now capacity rate (filter_entry (is_fresh now idle_ttl) a o)
      ≤ supply clock capacity rate o + (now - clock) * rate
supply-filter clock now idle_ttl capacity rate a none full k sync = omega arith
supply-filter clock now idle_ttl capacity rate a (some b) full k sync =
    elim (Bool-cases (is_fresh now idle_ttl (a, b))) [
      | inl fresh ↦
          rw fresh (refilled_later clock now capacity rate b (omega (arith, sync b refl)) k)
      | inr idle ↦ rw idle (
          omega (
            arith,
            idle_is_full now idle_ttl capacity rate b full (sync b refl).0 (ground arith),
            refilled_later clock now capacity rate b (omega (arith, sync b refl)) k,
          ))
    ]

supply-evict_idle_buckets :
    (clock now idle_ttl capacity rate : ℕ) (a : IpAddr) (s : LimiterInner)
    → Unique s.buckets
    → capacity ≤ idle_ttl * rate
    → clock ≤ now
    → All (SyncedBy clock) s.buckets
    → supply now capacity rate (lookup a (evict_idle_buckets now idle_ttl s).buckets)
      ≤ supply clock capacity rate (lookup a s.buckets) + (now - clock) * rate
supply-evict_idle_buckets clock now idle_ttl capacity rate a s u full k sync =
    rw (lookup-evict_idle_buckets now idle_ttl s a u) (
      supply-filter clock now idle_ttl capacity rate a (lookup a s.buckets) full k
        (λ b e. All-lookup (SyncedBy clock) a s.buckets sync e))

-- A token granted comes out of the supply.
spent : Bool → ℕ
spent true = token
spent false = 0

supply-or_new :
    (now capacity rate : ℕ) (o : Option Bucket)
    → refilled now capacity rate (or_new now capacity o) ≡ supply now capacity rate o
supply-or_new now capacity rate none = omega arith
supply-or_new now capacity rate (some b) = refl

pay :
    (now capacity rate t : ℕ)
    → t ≤ capacity
    → refilled now capacity rate (record {
      tokens = if leb token t then t - token else t;
      last_refill = now;
      last_touch = now;
    })
        + spent (leb token t)
      ≡ t
unfolding spent
pay now capacity rate t h = ground arith

take_self :
    (now capacity rate : ℕ) (ip : IpAddr) (s : LimiterInner)
    → supply now capacity rate (lookup ip (take now capacity rate ip s).0.buckets)
        + spent (take now capacity rate ip s).1
      ≡ supply now capacity rate (lookup ip s.buckets)
unfolding take
take_self now capacity rate ip s =
    rw (lookup-insert ip ip _ s.buckets, ==_refl ip)
      (pay now capacity rate _ (omega arith)
        ∙ supply-or_new now capacity rate (lookup ip s.buckets))

-- What a call grants to `a`, which need not be the caller.
abbrev pub granted : IpAddr → IpAddr → Bool → Bool
granted a ip ok = ip == a && ok

supply-take :
    (now capacity rate : ℕ) (a ip : IpAddr) (s : LimiterInner)
    → supply now capacity rate (lookup a (take now capacity rate ip s).0.buckets)
        + spent (granted a ip (take now capacity rate ip s).1)
      ≡ supply now capacity rate (lookup a s.buckets)
supply-take now capacity rate a ip s = elim (Bool-cases (ip == a)) [
  | inl same ↦
      let same_ip : ip ≡ a = (ip_beq_iff ip a).0 same in
      rw same (rw (← same_ip) (take_self now capacity rate ip s))
  | inr other ↦ rw (other, lookup-take now capacity rate ip a s other) (unfold spent in omega arith)
]

SyncedBy-weaken :
    (clock now : ℕ) (m : Buckets) → clock ≤ now → All (SyncedBy clock) m → All (SyncedBy now) m
SyncedBy-weaken clock now [] k h = h
SyncedBy-weaken clock now ((ip, b) ∷ m) k h =
    ((h.0.0, omega (arith, h.0.1)), SyncedBy-weaken clock now m k h.1)

evict_idle_buckets-SyncedBy :
    (clock now idle_ttl : ℕ) (s : LimiterInner)
    → clock ≤ now
    → All (SyncedBy clock) s.buckets
    → All (SyncedBy now) (evict_idle_buckets now idle_ttl s).buckets
unfolding evict_idle_buckets
evict_idle_buckets-SyncedBy clock now idle_ttl s k h =
    All-keep (SyncedBy now) (is_fresh now idle_ttl) s.buckets
      (SyncedBy-weaken clock now s.buckets k h)

take-SyncedBy :
    (now capacity rate : ℕ) (ip : IpAddr) (s : LimiterInner)
    → All (SyncedBy now) s.buckets
    → All (SyncedBy now) (take now capacity rate ip s).0.buckets
unfolding take
take-SyncedBy now capacity rate ip s h =
    All-insert (SyncedBy now) ip _ s.buckets (refl, omega arith) h

-- A limiter with no bound on the addresses it tracks, as a list of calls sees it.
module _ (capacity rate idle_ttl : ℕ) where
  abbrev pub call : ℕ → IpAddr → LimiterInner → LimiterInner × Bool
  call now ip s = try_take_at now ip capacity rate idle_ttl 0 s

  -- How many of the calls, oldest first, let `a` in.
  unfoldable pub admitted : IpAddr → List (ℕ × IpAddr) → LimiterInner → ℕ
  admitted a [] s = 0
  admitted a ((now, ip) ∷ calls) s =
      let rest = admitted a calls (call now ip s).0 in
      if granted a ip (call now ip s).1 then suc rest else rest

  call-supply :
      (clock now : ℕ) (a ip : IpAddr) (s : LimiterInner)
      → Unique s.buckets
      → capacity ≤ idle_ttl * rate
      → clock ≤ now
      → All (SyncedBy clock) s.buckets
      → supply now capacity rate (lookup a (call now ip s).0.buckets)
          + spent (granted a ip (call now ip s).1)
        ≤ supply clock capacity rate (lookup a s.buckets) + (now - clock) * rate
  unfolding try_take_at
  call-supply clock now a ip s u full k sync = omega (
    arith,
    supply-take now capacity rate a ip (evict_idle_buckets now idle_ttl s),
    supply-evict_idle_buckets clock now idle_ttl capacity rate a s u full k sync,
  )

  call-SyncedBy :
      (clock now : ℕ) (ip : IpAddr) (s : LimiterInner)
      → clock ≤ now
      → All (SyncedBy clock) s.buckets
      → All (SyncedBy now) (call now ip s).0.buckets
  unfolding try_take_at
  call-SyncedBy clock now ip s k h =
      take-SyncedBy now capacity rate ip (evict_idle_buckets now idle_ttl s)
        (evict_idle_buckets-SyncedBy clock now idle_ttl s k h)

-- The calls are in the order of their instants, from `clock` to `end`.
abbrev pub InOrder : ℕ → List (ℕ × IpAddr) → ℕ → Type 0
InOrder clock [] end = clock ≤ end
InOrder clock ((now, ip) ∷ calls) end = (clock ≤ now) × InOrder now calls end

InOrder-le :
    (clock : ℕ) (calls : List (ℕ × IpAddr)) (end : ℕ) → InOrder clock calls end → clock ≤ end
InOrder-le clock [] end h = h
InOrder-le clock ((now, ip) ∷ calls) end h = omega (arith, h.0, InOrder-le now calls end h.1)

spent-count : (b : Bool) (n : ℕ) → (if b then suc n else n) * token ≡ spent b + n * token
unfolding spent
spent-count true n = omega arith
spent-count false n = omega arith

-- In any sequence of calls from any addresses, in order of time, what one address is granted is no
-- more than the tokens it could take at the start and the refill of the time that passes, provided
-- that the idle time refills a bucket (so that losing an idle bucket gains nothing) and that the
-- number of addresses is not bounded.
pub admitted_le_supply :
    (capacity rate idle_ttl clock end : ℕ) (a : IpAddr) (calls : List (ℕ × IpAddr))
    (s : LimiterInner)
    → Unique s.buckets
    → capacity ≤ idle_ttl * rate
    → All (SyncedBy clock) s.buckets
    → InOrder clock calls end
    → admitted capacity rate idle_ttl a calls s * token
      ≤ supply clock capacity rate (lookup a s.buckets) + (end - clock) * rate
unfolding admitted
admitted_le_supply capacity rate idle_ttl clock end a [] s u full sync order = omega arith
admitted_le_supply capacity rate idle_ttl clock end a ((now, ip) ∷ calls) s u full sync order =
    let next = (call capacity rate idle_ttl now ip s).0 in
    let rest =
      admitted_le_supply capacity rate idle_ttl now end a calls next
        (try_take_at-Unique now ip capacity rate idle_ttl 0 s u) full
        (call-SyncedBy capacity rate idle_ttl clock now ip s order.0 sync) order.1 in
    let here = call-supply capacity rate idle_ttl clock now a ip s u full order.0 sync in
    let later = InOrder-le now calls end order.1 in
    let e : end - clock ≡ (now - clock) + (end - now) = omega (arith, order.0) in
    let p : (end - clock) * rate ≡ (now - clock) * rate + (end - now) * rate =
      rw e (add-mul (now - clock) (end - now) rate) in
    omega (
      arith,
      spent-count (granted a ip (call capacity rate idle_ttl now ip s).1)
          (admitted capacity rate idle_ttl a calls next),
    )
