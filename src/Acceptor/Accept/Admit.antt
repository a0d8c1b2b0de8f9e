-- ===== src/Acceptor/Accept/Admit.antt =====
-- acceptor.rs: which clients are served, and what each accept costs.
use five_nines_echo.Base.{
  ℕ, String, ◌≡◌, refl, Bool, true, false, ◌&&◌, ◌||◌, not, some, nat_beq, ltb, if◌then◌else◌,
  arith,
}
use five_nines_echo.Limits.{AcceptorLimits}
use five_nines_echo.Limits.Rate.{RateLimiter, try_take}
use five_nines_echo.Limits.Session.{SessionCap, Task, act, fetch_add_one}
use five_nines_echo.Scanner.Peer.{Texts}
use five_nines_echo.Acceptor.Accept.{
  Gate, Accepted, Arrival, try_acquire, with_guard, with_token, admit, handle_acceptor_accept,
}

-- No cap, or a place below it.
abbrev pub has_place : SessionCap → Bool
has_place c = nat_beq c.cap 0 || ltb c.in_flight c.cap

try_acquire-place :
    (c : SessionCap)
    → try_acquire c ≡ (
        if has_place c
        then (Task.holding, fetch_add_one c.in_flight)
        else (Task.refused, c.in_flight))
unfolding try_acquire act
try_acquire-place c = ground arith

abbrev pub is_served : Accepted → Bool
is_served Accepted.failed = false
is_served Accepted.drained = false
is_served Accepted.rate_limited = false
is_served Accepted.cap_reached = false
is_served (Accepted.served c) = true

module _ (t : Texts) (role : String) (server_port : ℕ) where
  -- Who is served by what was taken from the limiter and what the cap gave.
  abbrev pub Admits : Gate → Bool → RateLimiter → Gate × Accepted → Type 0
  Admits g open' rate (g', verdict) =
      let served = open' && has_place g.limits.sessions in
      (is_served verdict ≡ served)
      × (g'.limits.sessions.in_flight ≡ (
          if served
          then fetch_add_one g.limits.sessions.in_flight
          else g.limits.sessions.in_flight))
      × (g'.limits.sessions.cap ≡ g.limits.sessions.cap)
      × (g'.limits.rate ≡ rate)
      × (g'.drained ≡ g.drained)

  with_guard-Admits :
      (a : Arrival) (g : Gate) (rate : RateLimiter) (place : Bool)
      → has_place g.limits.sessions ≡ place
      → Admits g true rate (
          with_guard t role server_port a
            (record g { limits = record g.limits { rate = rate } })
            (if place
              then (Task.holding, fetch_add_one g.limits.sessions.in_flight)
              else (Task.refused, g.limits.sessions.in_flight)))
  with_guard-Admits a g rate true e = rw e (refl, refl, refl, refl, refl)
  with_guard-Admits a g rate false e = rw e (refl, refl, refl, refl, refl)

  with_token-Admits :
      (a : Arrival) (g : Gate) (rate : RateLimiter) (open' : Bool)
      → Admits g open' rate (with_token t role server_port a g (rate, open'))
  with_token-Admits a g rate false = (refl, refl, refl, refl, refl)
  with_token-Admits a g rate true =
      rw (try_acquire-place g.limits.sessions)
        (with_guard-Admits a g rate (has_place g.limits.sessions) refl)

  admit-Admits :
      (a : Arrival) (drained : Bool) (limits : AcceptorLimits)
      → let g : Gate = record { drained = drained; limits = limits } in
        let r = try_take a.now a.ip limits.rate in
        Admits g
          (not drained && r.1)
          (if drained then limits.rate else r.0)
          (admit t role server_port a g)
  admit-Admits a true limits = (refl, refl, refl, refl, refl)
  admit-Admits a false limits =
      let r = try_take a.now a.ip limits.rate in
      with_token-Admits a (record { drained = false; limits = limits }) r.0 r.1

  -- An acceptor serves an arriving client exactly if it is not drained, the rate limiter lets the
  -- address pass and the session cap has a place. Then the count of sessions is raised by one, and it
  -- stays in every other case. The limiter takes its token in each case but that of a drained acceptor,
  -- which leaves it alone; the cap and the drained state do not change.
  pub handle_acceptor_accept-Admits :
      (a : Arrival) (g : Gate)
      → let r = try_take a.now a.ip g.limits.rate in
        Admits g
          (not g.drained && r.1)
          (if g.drained then g.limits.rate else r.0)
          (handle_acceptor_accept t role server_port (some a) g)
  unfolding handle_acceptor_accept
  handle_acceptor_accept-Admits a g = admit-Admits a g.drained g.limits
