-- ===== src/Systemd/Beacon.antt =====
-- systemd.rs: the watchdog's beacon and its pings.
use five_nines_echo.Base.{
  ℕ, zero, suc, ◌+◌, ◌*◌, ◌^◌, ◌≤◌, ◌<◌, ◌≡◌, refl, ◌∙◌, ap, not, some, List, [], ◌∷◌, nat_beq, All,
  map, arith,
}
use five_nines_echo.Base.Words.{u64, from_micros}
use five_nines_echo.Systemd.{
  WatchdogEnv, watchdog_usec, tick_of, beacon_tick_interval, ping_interval, tick, pings,
}

-- The beacon after `k` ticks.
abbrev pub ticks : ℕ → ℕ → ℕ
ticks zero beacon = beacon
ticks (suc k) beacon = tick (ticks k beacon)

-- The beacon at each check, if it ticks `k` times before each.
abbrev pub loads : ℕ → List ℕ → List ℕ
loads beacon [] = []
loads beacon (k ∷ ks) = let now = ticks k beacon in now ∷ loads now ks

ticks-u64 : (k beacon : ℕ) → beacon < 2 ^ 64 → ticks k beacon ≡ u64 (beacon + k)
ticks-u64 zero beacon h = omega arith
ticks-u64 (suc k) beacon h = omega (arith, ticks-u64 k beacon h)

moved :
    (beacon k : ℕ)
    → beacon < 2 ^ 64
    → k < 2 ^ 64
    → not (nat_beq (u64 (beacon + k)) beacon) ≡ not (nat_beq k 0)
moved beacon k h b = ground arith

-- If the core loop ticks fewer than 2^64 times between two checks, the watchdog is pinged at exactly
-- the checks before which it has ticked at all.
pub pings-loads :
    (beacon : ℕ) (ks : List ℕ)
    → beacon < 2 ^ 64
    → All (λ k. k < 2 ^ 64) ks
    → pings beacon (loads beacon ks) ≡ map (λ k. not (nat_beq k 0)) ks
unfolding pings
pings-loads beacon [] h few = refl
pings-loads beacon (k ∷ ks) h few =
    let t = ticks-u64 k beacon h in
    let now : pings (ticks k beacon) (loads (ticks k beacon) ks) ≡ map (λ k. not (nat_beq k 0)) ks =
      pings-loads (ticks k beacon) ks (rw t (omega arith)) few.1 in
    let here : not (nat_beq (ticks k beacon) beacon) ≡ not (nat_beq k 0) =
      rw t (moved beacon k h few.0) in
    ap (λ b. b ∷ pings (ticks k beacon) (loads (ticks k beacon) ks)) here
    ∙ ap (λ bs. not (nat_beq k 0) ∷ bs) now

tick_twice : (usec : ℕ) → 4 ≤ usec → 2 * tick_of (some usec) ≤ ping_interval usec
tick_twice usec h = omega arith

-- With a watchdog interval of at least four microseconds the loop ticks at least twice in the time
-- between two pings, and two pings fit into the interval.
pub beacon_tick_interval-twice :
    (env : WatchdogEnv) (usec : ℕ)
    → watchdog_usec env ≡ some usec
    → 4 ≤ usec
    → (2 * beacon_tick_interval env ≤ ping_interval usec)
      × (2 * ping_interval usec ≤ from_micros usec)
beacon_tick_interval-twice env usec e h = rw e (tick_twice usec h, omega arith)
