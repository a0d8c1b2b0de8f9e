-- ===== src/Processor/Upgrade/Adopt.antt =====
-- processor/upgrade.rs, `readopt_sessions` and the loop of `adopt_inflight_sessions`: what becomes of the
-- sessions and of their descriptors.
use mathlib.Core.List.{append-nil, append_assoc}
use five_nines_echo.Base.{
  ℕ, suc, ◌+◌, ◌^◌, ◌<◌, length, ◌≡◌, refl, sym, ap, ◌∙◌, Bool, true, false, not, List, [], ◌∷◌,
  ◌++◌, map, All, All-insert, insert_absent, nat_key, nat_beq, count_if, count_if-append, arith,
}
use five_nines_echo.Base.Words.{u64}
use five_nines_echo.Handoff.{SessionHandoff, Transport}
use five_nines_echo.Processor.Session.{Origin, Session}
use five_nines_echo.Processor.Registry.{SessionHandle, SessionRegistry, register}
use five_nines_echo.Processor.Registry.Tidy.{Below, Below-suc, Below-absent}
use five_nines_echo.Processor.Upgrade.{
  Adoption, adopt_session, readopt_sessions, take_over, reinstate, origin_of, session_of,
}

-- The handles under the ids from `n` on.
abbrev pub numbered : ℕ → List SessionHandle → List (ℕ × SessionHandle)
numbered n [] = []
numbered n (h ∷ hs) = (n, h) ∷ numbered (suc n) hs

-- The handle of the task that takes a handoff over.
abbrev pub revived : SessionHandoff → SessionHandle
revived h = record { peer = h.peer; origin = origin_of h; session = session_of h }

abbrev pub IsSound : SessionRegistry → Type 0
IsSound reg = All (Below reg.next_id) reg.sessions

-- There are ids for so many more sessions.
abbrev pub HasIds : ℕ → SessionRegistry → Type 0
HasIds n reg = reg.next_id + n < 2 ^ 64

next_id-suc : (n : ℕ) → n + 1 < 2 ^ 64 → u64 (n + 1) ≡ suc n
next_id-suc n b = omega arith

register-sessions :
    (o : Origin) (s : Session) (reg : SessionRegistry)
    → IsSound reg
    → (register o s reg).sessions
      ≡ reg.sessions ++ (reg.next_id, record { peer = o.peer; origin = o; session = s }) ∷ []
unfolding register
register-sessions o s reg b =
    insert_absent reg.next_id _ reg.sessions (Below-absent reg.next_id reg.sessions b)

register-IsSound :
    (o : Origin) (s : Session) (reg : SessionRegistry) (n : ℕ)
    → HasIds (suc n) reg
    → IsSound reg
    → IsSound (register o s reg)
unfolding register
register-IsSound o s reg n f b = rw (next_id-suc reg.next_id (omega arith)) (
    All-insert (Below (suc reg.next_id)) reg.next_id
      (record { peer = o.peer; origin = o; session = s }) reg.sessions (omega arith)
      (Below-suc reg.next_id reg.sessions b))

module _ (reconstruct : ℕ → Bool) where
  -- Its descriptor is that of a session on a Unix socket, and makes a stream.
  abbrev pub IsUsable : SessionHandoff → Type 0
  IsUsable h = (h.transport ≡ Transport.uds) × (reconstruct h.uds_fd ≡ true)

  take_over-IsSound :
      (h : SessionHandoff) (tr : Transport) (usable : Bool) (a : Adoption) (n : ℕ)
      → HasIds (suc n) a.registry
      → IsSound a.registry
      → IsSound (take_over h tr usable a).registry × HasIds n (take_over h tr usable a).registry
  unfolding register
  take_over-IsSound h Transport.uds true a n f b =
      (register-IsSound (origin_of h) (session_of h) a.registry n f b, omega arith)
  take_over-IsSound h Transport.uds false a n f b = (b, omega arith)
  take_over-IsSound h Transport.tcp usable a n f b = (b, omega arith)

  adopt_session-IsSound :
      (h : SessionHandoff) (a : Adoption) (n : ℕ)
      → HasIds (suc n) a.registry
      → IsSound a.registry
      → let a' = adopt_session reconstruct h a in IsSound a'.registry × HasIds n a'.registry
  unfolding adopt_session
  adopt_session-IsSound h a n f b = take_over-IsSound h h.transport (reconstruct h.uds_fd) _ n f b

  adopt_session-sessions :
      (h : SessionHandoff) (a : Adoption) (n : ℕ)
      → HasIds (suc n) a.registry
      → IsSound a.registry
      → IsUsable h
      → let a' = adopt_session reconstruct h a in
        (a'.registry.sessions ≡ a.registry.sessions ++ (a.registry.next_id, revived h) ∷ [])
        × (a'.registry.next_id ≡ suc a.registry.next_id)
        × (a'.closed ≡ a.closed)
  unfolding adopt_session register
  adopt_session-sessions h a n f b u =
      rw (u.0, u.1)
        (
          register-sessions (origin_of h) (session_of h)
              (record a.registry { metadata = reinstate h h.ident a.registry.metadata }) b,
          next_id-suc a.registry.next_id (omega arith),
          refl,
        )

  -- Usable handoffs are all taken over, in their order, under the next ids.
  pub readopt_sessions-sessions :
      (hs : List SessionHandoff) (a : Adoption)
      → HasIds (length hs) a.registry
      → IsSound a.registry
      → All IsUsable hs
      → let a' = readopt_sessions reconstruct hs a in
        (a'.registry.sessions ≡ a.registry.sessions ++ numbered a.registry.next_id (map revived hs))
        × (a'.closed ≡ a.closed)
  unfolding readopt_sessions
  readopt_sessions-sessions [] a f b u = (sym (append-nil a.registry.sessions), refl)
  readopt_sessions-sessions (h ∷ hs) a f b u =
      let (one, id, closed) = adopt_session-sessions h a (length hs) f b u.0 in
      let (sound, ids) = adopt_session-IsSound h a (length hs) f b in
      let (rest, closed') =
        readopt_sessions-sessions hs (adopt_session reconstruct h a) ids sound u.1 in
      (
        rest
            ∙ ap
                (λ s.
                  s ++ numbered (adopt_session reconstruct h a).registry.next_id (map revived hs))
                one
            ∙ ap
                (λ n.
                  (a.registry.sessions ++ (a.registry.next_id, revived h) ∷ [])
                  ++ numbered n (map revived hs))
                id
            ∙ append_assoc a.registry.sessions ((a.registry.next_id, revived h) ∷ []) _,
        closed' ∙ closed,
      )

-- The descriptors of the sessions of a registry.
abbrev pub fds : List (ℕ × SessionHandle) → List ℕ
fds sessions = map (λ (e : ℕ × SessionHandle). e.1.origin.fd) sessions

abbrev pub times : ℕ → List ℕ → ℕ
times fd = count_if (nat_beq fd)

fds-append : (s s' : List (ℕ × SessionHandle)) → fds (s ++ s') ≡ fds s ++ fds s'
fds-append [] s' = refl
fds-append (x ∷ s) s' = ap (λ l. x.1.origin.fd ∷ l) (fds-append s s')

-- How often a descriptor is held by a session or was closed.
abbrev pub kept : ℕ → Adoption → ℕ
kept fd a = times fd (fds a.registry.sessions) + times fd a.closed

-- The handoff is of a Unix socket that makes no stream.
abbrev is_broken : Transport → Bool → Bool
is_broken Transport.uds usable = not usable
is_broken Transport.tcp usable = false

abbrev again : SessionHandoff → Bool → List ℕ
again h true = h.uds_fd ∷ []
again h false = []

module _ (fd : ℕ) where
  held-register :
      (o : Origin) (s : Session) (reg : SessionRegistry)
      → IsSound reg
      → times fd (fds (register o s reg).sessions)
        ≡ times fd (fds reg.sessions) + times fd (o.fd ∷ [])
  held-register o s reg b =
      ap (λ l. times fd (fds l)) (register-sessions o s reg b)
      ∙ ap (times fd) (fds-append reg.sessions _)
      ∙ count_if-append (nat_beq fd) (fds reg.sessions) (o.fd ∷ [])

  take_over-kept :
      (h : SessionHandoff) (tr : Transport) (usable : Bool) (a : Adoption)
      → IsSound a.registry
      → kept fd (take_over h tr usable a)
        ≡ kept fd a + times fd (h.uds_fd ∷ []) + times fd (again h (is_broken tr usable))
  take_over-kept h Transport.uds true a b =
      omega (arith, held-register (origin_of h) (session_of h) a.registry b)
  take_over-kept h Transport.uds false a b =
      omega (arith, count_if-append (nat_beq fd) a.closed (h.uds_fd ∷ h.uds_fd ∷ []))
  take_over-kept h Transport.tcp usable a b =
      omega (arith, count_if-append (nat_beq fd) a.closed (h.uds_fd ∷ []))

module _ (reconstruct : ℕ → Bool) where
  abbrev pub doubled : List SessionHandoff → List ℕ
  doubled [] = []
  doubled (h ∷ hs) = again h (is_broken h.transport (reconstruct h.uds_fd)) ++ doubled hs

module _ (reconstruct : ℕ → Bool) (fd : ℕ) where
  adopt_session-kept :
      (h : SessionHandoff) (a : Adoption)
      → IsSound a.registry
      → kept fd (adopt_session reconstruct h a)
        ≡ kept fd a
          + times fd (h.uds_fd ∷ [])
          + times fd (again h (is_broken h.transport (reconstruct h.uds_fd)))
  unfolding adopt_session
  adopt_session-kept h a b = take_over-kept fd h h.transport (reconstruct h.uds_fd) _ b

  -- Take a registry with ids left, below 2^64, for all the handoffs. Whatever the transports of the
  -- handoffs and whichever descriptors make streams: each descriptor is
  -- held by a session of the registry or was closed, together as often as it was before and as it is in
  -- the handoffs, and once more for each handoff of a Unix socket whose descriptor makes no stream. So
  -- no descriptor is lost, and exactly those of the last kind are closed twice.
  pub readopt_sessions-kept :
      (hs : List SessionHandoff) (a : Adoption)
      → HasIds (length hs) a.registry
      → IsSound a.registry
      → kept fd (readopt_sessions reconstruct hs a)
        ≡ kept fd a
          + times fd (map (λ (h : SessionHandoff). h.uds_fd) hs)
          + times fd (doubled reconstruct hs)
  unfolding readopt_sessions
  readopt_sessions-kept [] a f b = omega arith
  readopt_sessions-kept (h ∷ hs) a f b = omega (
    arith,
    adopt_session-kept h a b,
    count_if-append (nat_beq fd) (again h (is_broken h.transport (reconstruct h.uds_fd)))
        (doubled reconstruct hs),
    readopt_sessions-kept hs (adopt_session reconstruct h a)
        (adopt_session-IsSound reconstruct h a (length hs) f b).1
        (adopt_session-IsSound reconstruct h a (length hs) f b).0,
  )
