-- ===== src/Upgrade/Walk.antt =====
-- supervisor/admin.rs, `rolling_upgrade`: the walk stops at the first role that fails.
use five_nines_echo.Base.{
  ℕ, ◌+◌, ◌≡◌, refl, ap, inl, inr, Bool, true, false, Option, none, some, List, [], ◌∷◌, String,
  sym, subst, Option-cases,
}
use five_nines_echo.Base.Words.{from_secs}
use five_nines_echo.Control.{HealthState, WorkerStatus}
use five_nines_echo.Metrics.{
  UpgradeCounters, incr_committed, incr_timed_out, incr_canary_aborted, incr_skipped,
}
use five_nines_echo.Upgrade.{
  RollingUpgradeRequest, RoleRun, Awaited, Observed, Progress, poll_secs, await_generation, observe,
  after_await, after_query, after_observe, upgrade_one, canary_observe, canary_part, and_then,
  upgrade_role, walk, targets, completed, on_targets, rolling_upgrade,
}

-- The worker's status was answered, and this is what the wait for its new generation came to.
abbrev pub Awaits : String → RoleRun → Option Awaited → Type 0
Awaits role run o =
    (pre : WorkerStatus) × (run.pre ≡ some pre)
    × (await_generation pre.generation (run.sent_at + from_secs (poll_secs role)) run.polls ≡ o)

abbrev pub Reached : String → RoleRun → Type 0
Reached role run = (g : ℕ) × Awaits role run (some (Awaited.done g))

-- What the canary of so many seconds came to.
abbrev pub Observes : RoleRun → ℕ → Option Observed → Type 0
Observes run secs o =
    observe (run.canary_at + from_secs secs) run.baseline_state run.canary_polls ≡ o

-- There is no canary, or it was clean.
abbrev pub Clean : RoleRun → Option ℕ → Type 0
Clean run none = Unit
Clean run (some secs) = Observes run secs (some Observed.clean)

abbrev pub Committed : RollingUpgradeRequest → (String → RoleRun) → String → Type 0
Committed req runs role = Reached role (runs role) × Clean (runs role) req.canary_secs

abbrev pub Aborted : RollingUpgradeRequest → (String → RoleRun) → String → Type 0
Aborted req runs role =
    Reached role (runs role)
    × ((secs : ℕ) × (state : HealthState) × (req.canary_secs ≡ some secs)
        × Observes (runs role) secs (some (Observed.regressed state)))

-- The canary has still to decide.
abbrev pub Observing : RollingUpgradeRequest → (String → RoleRun) → String → Type 0
Observing req runs role =
    Reached role (runs role)
    × ((secs : ℕ) × (req.canary_secs ≡ some secs) × Observes (runs role) secs none)

-- A walk over `roles` with its result and the messages it sent: each role is reached only when the
-- ones before it are committed.
pub data Stops (req : RollingUpgradeRequest) (runs : String → RoleRun)
    : List String → Option Bool → List (String × Option String) → Type 0 where
  finishes : Stops req runs [] (some true) []
  goes_on :
      {role : String} {roles : List String} {ok : Option Bool}
      {sent : List (String × Option String)}
      → Committed req runs role
      → Stops req runs roles ok sent
      → Stops req runs (role ∷ roles) ok ((role, req.binary_path) ∷ sent)
  -- no status from the worker, and so nothing sent
  skips :
      {role : String} {roles : List String}
      → (runs role).pre ≡ none
      → Stops req runs (role ∷ roles) (some false) []
  -- no new generation in time
  times_out :
      {role : String} {roles : List String}
      → Awaits role (runs role) (some Awaited.timed_out)
      → Stops req runs (role ∷ roles) (some false) ((role, req.binary_path) ∷ [])
  -- a new generation, and a canary that saw a state worse than before
  aborts :
      {role : String} {roles : List String}
      → Aborted req runs role
      → Stops req runs (role ∷ roles) (some false) ((role, req.binary_path) ∷ [])
  -- the polls of the wait, or of the canary, decide nothing yet
  awaits :
      {role : String} {roles : List String}
      → Awaits role (runs role) none
      → Stops req runs (role ∷ roles) none ((role, req.binary_path) ∷ [])
  observes :
      {role : String} {roles : List String}
      → Observing req runs role
      → Stops req runs (role ∷ roles) none ((role, req.binary_path) ∷ [])

-- What one role's part of the walk leaves of the counters `c`, told apart by its result.
pub data RoleEnds (req : RollingUpgradeRequest) (runs : String → RoleRun) (role : String)
    (c : UpgradeCounters) : Progress → Type 0 where
  commits :
      (w : Progress)
      → Committed req runs role
      → w.ok ≡ some true
      → w.sent ≡ (role, req.binary_path) ∷ []
      → w.counters ≡ incr_committed role c
      → RoleEnds req runs role c w
  skipped :
      (w : Progress)
      → (runs role).pre ≡ none
      → w.ok ≡ some false
      → w.sent ≡ []
      → w.counters ≡ incr_skipped role c
      → RoleEnds req runs role c w
  late :
      (w : Progress)
      → Awaits role (runs role) (some Awaited.timed_out)
      → w.ok ≡ some false
      → w.sent ≡ (role, req.binary_path) ∷ []
      → w.counters ≡ incr_timed_out role c
      → RoleEnds req runs role c w
  aborted :
      (w : Progress)
      → Aborted req runs role
      → w.ok ≡ some false
      → w.sent ≡ (role, req.binary_path) ∷ []
      → w.counters ≡ incr_canary_aborted role (incr_committed role c)
      → RoleEnds req runs role c w
  awaiting :
      (w : Progress)
      → Awaits role (runs role) none
      → w.ok ≡ none
      → w.sent ≡ (role, req.binary_path) ∷ []
      → w.counters ≡ c
      → RoleEnds req runs role c w
  observing :
      (w : Progress)
      → Observing req runs role
      → w.ok ≡ none
      → w.sent ≡ (role, req.binary_path) ∷ []
      → w.counters ≡ incr_committed role c
      → RoleEnds req runs role c w

module _ (req : RollingUpgradeRequest) (runs : String → RoleRun) (role : String)
    (c : UpgradeCounters) where
  -- The role has a new generation, and its canary is next.
  record IsUp (w : Progress) : Type 0 where
    pub reached : Reached role (runs role)
    pub ok : w.ok ≡ some true
    pub sent : w.sent ≡ (role, req.binary_path) ∷ []
    pub counted : w.counters ≡ incr_committed role c

  canary-RoleEnds :
      (o : Option Observed) (secs : ℕ) (w : Progress)
      → IsUp w
      → req.canary_secs ≡ some secs
      → Observes (runs role) secs o
      → RoleEnds req runs role c (and_then w (λ c'. after_observe role c' o))
  canary-RoleEnds none secs w up k e =
      rw up.ok (observing _ (up.reached, (secs, k, e)) refl (rw up.sent refl) up.counted)
  canary-RoleEnds (some Observed.clean) secs w up k e = rw up.ok (
      commits _ (up.reached, subst (Clean (runs role)) (sym k) e) refl (rw up.sent refl) up.counted)
  canary-RoleEnds (some (Observed.regressed s)) secs w up k e = rw up.ok (
      aborted _ (up.reached, (secs, s, k, e)) refl (rw up.sent refl)
        (ap (incr_canary_aborted role) up.counted))

  canary_part-RoleEnds :
      (w : Progress) (secs : Option ℕ)
      → IsUp w
      → req.canary_secs ≡ secs
      → RoleEnds req runs role c (and_then w (λ c'. canary_part role secs (runs role) c'))
  unfolding canary_observe
  canary_part-RoleEnds w none up k = rw up.ok (
      commits _ (up.reached, subst (Clean (runs role)) (sym k) tt) refl (rw up.sent refl)
        up.counted)
  canary_part-RoleEnds w (some secs) up k =
      canary-RoleEnds
        (observe ((runs role).canary_at + from_secs secs) (runs role).baseline_state
          (runs role).canary_polls)
        secs w up k refl

  await-RoleEnds :
      (pre : WorkerStatus) (o : Option Awaited)
      → (runs role).pre ≡ some pre
      → await_generation pre.generation
          ((runs role).sent_at + from_secs (poll_secs role))
          (runs role).polls
        ≡ o
      → RoleEnds req runs role c (
          and_then
            (after_await role req.binary_path pre.generation c o)
            (λ c'. canary_part role req.canary_secs (runs role) c'))
  await-RoleEnds pre none p e = awaiting _ (pre, p, e) refl refl refl
  await-RoleEnds pre (some Awaited.timed_out) p e = late _ (pre, p, e) refl refl refl
  await-RoleEnds pre (some (Awaited.done g)) p e =
      canary_part-RoleEnds
        (after_await role req.binary_path pre.generation c (some (Awaited.done g))) req.canary_secs
        (record { reached = (g, (pre, p, e)); ok = refl; sent = refl; counted = refl }) refl

  query-RoleEnds :
      (o : Option WorkerStatus)
      → (runs role).pre ≡ o
      → RoleEnds req runs role c (
          and_then
            (after_query role req.binary_path (runs role) c o)
            (λ c'. canary_part role req.canary_secs (runs role) c'))
  query-RoleEnds none e = skipped _ e refl refl refl
  query-RoleEnds (some pre) e = await-RoleEnds pre _ e refl

  pub upgrade_role-RoleEnds : RoleEnds req runs role c (upgrade_role role req (runs role) c)
  unfolding upgrade_one
  upgrade_role-RoleEnds = query-RoleEnds (runs role).pre refl

and_then-Stops :
    (req : RollingUpgradeRequest) (runs : String → RoleRun) (role : String) (roles : List String)
    (c : UpgradeCounters) (w : Progress) (next : UpgradeCounters → Progress)
    → RoleEnds req runs role c w
    → ((c : UpgradeCounters) → Stops req runs roles (next c).ok (next c).sent)
    → Stops req runs (role ∷ roles) (and_then w next).ok (and_then w next).sent
and_then-Stops req runs role roles c _ next (commits w done ok sent n) ih =
    rw ok (rw sent (goes_on done (ih w.counters)))
and_then-Stops req runs role roles c _ next (skipped w p ok sent n) ih = rw ok (rw sent (skips p))
and_then-Stops req runs role roles c _ next (late w p ok sent n) ih = rw ok (rw sent (times_out p))
and_then-Stops req runs role roles c _ next (aborted w p ok sent n) ih = rw ok (rw sent (aborts p))
and_then-Stops req runs role roles c _ next (awaiting w p ok sent n) ih = rw ok (rw sent (awaits p))
and_then-Stops req runs role roles c _ next (observing w p ok sent n) ih =
    rw ok (rw sent (observes p))

walk-Stops :
    (req : RollingUpgradeRequest) (runs : String → RoleRun) (roles : List String)
    (c : UpgradeCounters)
    → Stops req runs roles (walk req runs roles c).ok (walk req runs roles c).sent
unfolding walk
walk-Stops req runs [] c = finishes
walk-Stops req runs (role ∷ roles) c =
    and_then-Stops req runs role roles c (upgrade_role role req (runs role) c)
      (λ c'. walk req runs roles c') (upgrade_role-RoleEnds req runs role c)
      (λ c'. walk-Stops req runs roles c')

-- The walk of a rolling upgrade that was neither locked out nor asked for an unknown role.
abbrev pub Walks :
    RollingUpgradeRequest → (String → RoleRun) → Option (List String) → Progress → Type 0
Walks req runs none w = (w.ok ≡ some false) × (w.sent ≡ [])
Walks req runs (some roles) w = Stops req runs roles w.ok w.sent

completed_same : (w : Progress) → ((completed w).ok ≡ w.ok) × ((completed w).sent ≡ w.sent)
completed_same w = elim (Option-cases w.ok) [
  | inl e ↦ rw e (refl, refl)
  | inr (b, e) ↦ rw e (refl, refl)
]

-- A rolling upgrade that is not locked out sends `Upgrade` to its targets in their order, to each only
-- after every one before it has reached a new generation and its canary, if there is one, was clean.
-- It succeeds where all targets do. Otherwise it stops at the first that does not: it fails there if the
-- worker has no status, so that nothing is sent to it, if no new generation is seen in time, or if the
-- canary saw a state that aborts it; and it has no result yet if the polls of that target decide nothing
-- yet. One for an unknown role fails and sends nothing.
pub rolling_upgrade-Walks :
    (req : RollingUpgradeRequest) (runs : String → RoleRun) (c : UpgradeCounters)
    → Walks req runs (targets req) (rolling_upgrade false req runs c)
unfolding rolling_upgrade
rolling_upgrade-Walks req runs c = go (targets req)
  where
    go : (t : Option (List String)) → Walks req runs t (on_targets req runs c t)
    go none = (refl, refl)
    go (some roles) =
        let same = completed_same (walk req runs roles c) in
        subst (λ ok. Stops req runs roles ok (completed (walk req runs roles c)).sent) (sym same.0)
          (subst (λ sent. Stops req runs roles (walk req runs roles c).ok sent) (sym same.1)
            (walk-Stops req runs roles c))
