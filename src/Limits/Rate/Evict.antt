-- ===== src/Limits/Rate/Evict.antt =====
-- limits.rs, `evict_at_cap`: which bucket makes room for a new address.
use five_nines_echo.Base.{
  ℕ, ◌+◌, ◌≤◌, ◌<◌, ◌≡◌, refl, ◌⊎◌, inl, inr, Bool, true, false, none, some, [], ◌∷◌, leb,
  if◌then◌else◌, lookup, remove, contains_key, Unique, All, Bool-cases, arith, lookup_present,
}
use five_nines_echo.Base.Words.{u64}
use five_nines_echo.Limits.Address.{IpAddr, ip_beq_iff, ip_key}
use five_nines_echo.Limits.Rate.{
  Bucket, Buckets, LimiterInner, Candidate, token, better, scan, evict_at_cap, drop_candidate,
}

-- A candidate is at least as good a choice as tokens `t` touched at `l`.
abbrev pub Beats : Candidate → ℕ → ℕ → Type 0
Beats none t l = ⊥
Beats (some (_, t', l')) t l = (t < t') ⊎ ((t ≡ t') × (l' ≤ l))

abbrev pub HasToken : Candidate → Type 0
HasToken none = ⊥
HasToken (some (_, t, _)) = token ≤ t

abbrev pub IsThrottled : IpAddr × Bucket → Type 0
IsThrottled (_, b) = b.tokens < token

abbrev next_best : IpAddr → Bucket → Candidate → Candidate
next_best ip b best = if better b best then some (ip, b.tokens, b.last_touch) else best

next_best-Beats :
    (ip : IpAddr) (b : Bucket) (best : Candidate)
    → Beats (next_best ip b best) b.tokens b.last_touch
next_best-Beats ip b none = ground arith
next_best-Beats ip b (some (_, t, l)) = ground arith

next_best-Beats_old :
    (ip : IpAddr) (b : Bucket) (best : Candidate) (t l : ℕ)
    → Beats best t l
    → Beats (next_best ip b best) t l
next_best-Beats_old ip b none t l h = elim h [ ]
next_best-Beats_old ip b (some (_, t', l')) t l h = ground arith

scan-Beats :
    (best : Candidate) (all_throttled : Bool) (m : Buckets) (t l : ℕ)
    → Beats best t l
    → Beats (scan best all_throttled m).0 t l
unfolding scan
scan-Beats best a [] t l h = h
scan-Beats best a ((ip, b) ∷ m) t l h =
    scan-Beats (next_best ip b best) _ m t l (next_best-Beats_old ip b best t l h)

abbrev pub BeatsAll : Candidate → Buckets → Type 0
BeatsAll c m = All (λ e. Beats c (e.1).tokens (e.1).last_touch) m

scan-BeatsAll :
    (best : Candidate) (all_throttled : Bool) (m : Buckets)
    → BeatsAll (scan best all_throttled m).0 m
unfolding scan
scan-BeatsAll best a [] = tt
scan-BeatsAll best a ((ip, b) ∷ m) = (
  scan-Beats (next_best ip b best) _ m b.tokens b.last_touch (next_best-Beats ip b best),
  scan-BeatsAll (next_best ip b best) _ m,
)

-- Unless all are throttled, the winner has a token.
next_best-HasToken :
    (ip : IpAddr) (b : Bucket) (best : Candidate) (a : Bool)
    → (a ≡ true) ⊎ HasToken best
    → ((if leb token b.tokens then false else a) ≡ true) ⊎ HasToken (next_best ip b best)
next_best-HasToken ip b none a h = ground arith
next_best-HasToken ip b (some (_, t, l)) a h = ground arith

scan-HasToken :
    (best : Candidate) (a : Bool) (m : Buckets)
    → (a ≡ true) ⊎ HasToken best
    → ((scan best a m).1 ≡ true) ⊎ HasToken (scan best a m).0
unfolding scan
scan-HasToken best a [] h = h
scan-HasToken best a ((ip, b) ∷ m) h =
    scan-HasToken (next_best ip b best) _ m (next_best-HasToken ip b best a h)

scan-IsThrottled :
    (best : Candidate) (a : Bool) (m : Buckets)
    → (scan best a m).1 ≡ true
    → (a ≡ true) × All IsThrottled m
unfolding scan
scan-IsThrottled best a [] h = (h, tt)
scan-IsThrottled best a ((ip, b) ∷ m) h =
    let r = scan-IsThrottled (next_best ip b best) (if leb token b.tokens then false else a) m h in
    ground arith

-- The winner is one of the entries, or the candidate that the loop began with.
abbrev pub Origin : Candidate → Candidate → Buckets → Type 0
Origin best none m = Unit
Origin best (some (ip, t, l)) m =
    (best ≡ some (ip, t, l))
    ⊎ ((b : Bucket) × (lookup ip m ≡ some b) × (b.tokens ≡ t) × (b.last_touch ≡ l))

Origin-step :
    (ip : IpAddr) (b : Bucket) (best c : Candidate) (m : Buckets)
    → contains_key ip m ≡ false
    → Origin (next_best ip b best) c m
    → Origin best c ((ip, b) ∷ m)
Origin-step ip b best none m u h = tt
Origin-step ip b best (some (jp, t, l)) m u (inl h) = elim (Bool-cases (better b best)) [
  | inl wins ↦ inr (b, ground (arith, ip_beq_iff ip jp), ground arith, ground arith)
  | inr loses ↦ inl (ground arith)
]
Origin-step ip b best (some (jp, t, l)) m u (inr (b', found, same_t, same_l)) =
    inr (b', ground (arith, ip_beq_iff ip jp, lookup_present jp m b' found), same_t, same_l)

scan-Origin :
    (best : Candidate) (a : Bool) (m : Buckets) → Unique m → Origin best (scan best a m).0 m
unfolding scan
scan-Origin none a [] u = tt
scan-Origin (some (_, _, _)) a [] u = inl refl
scan-Origin best a ((ip, b) ∷ m) u =
    Origin-step ip b best _ m u.0 (scan-Origin (next_best ip b best) _ m u.1)

-- What `evict_at_cap` does to the table.
pub data Evicts (s : LimiterInner) : LimiterInner × Bool → Type 0 where
  refuses : All IsThrottled s.buckets → Evicts s (s, false)
  evicts :
      (ip : IpAddr) (b : Bucket)
      → lookup ip s.buckets ≡ some b
      → token ≤ b.tokens
      → BeatsAll (some (ip, b.tokens, b.last_touch)) s.buckets
      → Evicts s (
        record s { buckets = remove ip s.buckets; lru_evictions = u64 (s.lru_evictions + 1) },
        true,
      )

drop_candidate-Evicts :
    (s : LimiterInner) (r : Candidate × Bool)
    → ((r.1 ≡ true) → All IsThrottled s.buckets)
    → (r.1 ≡ true) ⊎ HasToken r.0
    → BeatsAll r.0 s.buckets
    → Origin none r.0 s.buckets
    → Evicts s (drop_candidate s r)
drop_candidate-Evicts s (c, true) all h beats o = refuses (all refl)
drop_candidate-Evicts s (none, false) all (inl h) beats o = cc
drop_candidate-Evicts s (none, false) all (inr h) beats o = elim h [ ]
drop_candidate-Evicts s (some (ip, t, l), false) all (inl h) beats o = cc
drop_candidate-Evicts s (some (ip, t, l), false) all (inr h) beats (inl o) = cc
drop_candidate-Evicts s (some (ip, t, l), false) all (inr h) beats
      (inr (b, found, same_t, same_l)) =
    evicts ip b found (omega arith) (rw (same_t, same_l) beats)

-- In a table with each address once, `evict_at_cap` refuses and changes nothing if every bucket is
-- throttled. If not, it drops one entry, which has a token and the most tokens of all, and among
-- those with as many the oldest touch, and it counts the eviction.
pub evict_at_cap-Evicts : (s : LimiterInner) → Unique s.buckets → Evicts s (evict_at_cap s)
unfolding evict_at_cap
evict_at_cap-Evicts s u =
    drop_candidate-Evicts s (scan none true s.buckets)
      (λ h. (scan-IsThrottled none true s.buckets h).1)
      (scan-HasToken none true s.buckets (inl refl)) (scan-BeatsAll none true s.buckets)
      (scan-Origin none true s.buckets u)
