-- ===== src/Upgrade/Counted.antt =====
-- supervisor/admin.rs and metrics.rs: what a rolling upgrade counts.
use five_nines_echo.Base.{
  ◌≡◌, inl, inr, Bool, true, false, Option, none, some, List, [], ◌∷◌, String, string_key, subst,
  Option-cases,
}
use five_nines_echo.Metrics.{
  UpgradeCounters, incr_committed, incr_timed_out, incr_canary_aborted, incr_skipped,
}
use five_nines_echo.Upgrade.{
  RollingUpgradeRequest, RoleRun, Awaited, Progress, upgrade_role, and_then, walk, targets,
  completed, rolling_upgrade,
}
use five_nines_echo.Upgrade.Walk.{
  Awaits, Committed, Aborted, Observing, RoleEnds, upgrade_role-RoleEnds,
}

-- The counters of a walk that commits some roles and then, if it fails, fails at one more: one
-- committed upgrade for each of the first; for the last what it failed for, after its commit if it was
-- its canary that aborted it.
pub data Counts (req : RollingUpgradeRequest) (runs : String → RoleRun)
    : List String → Option Bool → UpgradeCounters → UpgradeCounters → Type 0 where
  none_left : {c : UpgradeCounters} → Counts req runs [] (some true) c c
  commits :
      {role : String} {roles : List String} {ok : Option Bool} {c c' : UpgradeCounters}
      → Committed req runs role
      → Counts req runs roles ok (incr_committed role c) c'
      → Counts req runs (role ∷ roles) ok c c'
  skips :
      {role : String} {roles : List String} {c : UpgradeCounters}
      → (runs role).pre ≡ none
      → Counts req runs (role ∷ roles) (some false) c (incr_skipped role c)
  times_out :
      {role : String} {roles : List String} {c : UpgradeCounters}
      → Awaits role (runs role) (some Awaited.timed_out)
      → Counts req runs (role ∷ roles) (some false) c (incr_timed_out role c)
  aborts :
      {role : String} {roles : List String} {c : UpgradeCounters}
      → Aborted req runs role
      → Counts req runs
          (role ∷ roles)
          (some false)
          c
          (incr_canary_aborted role (incr_committed role c))
  awaits :
      {role : String} {roles : List String} {c : UpgradeCounters}
      → Awaits role (runs role) none
      → Counts req runs (role ∷ roles) none c c
  observes :
      {role : String} {roles : List String} {c : UpgradeCounters}
      → Observing req runs role
      → Counts req runs (role ∷ roles) none c (incr_committed role c)

module _ (req : RollingUpgradeRequest) (runs : String → RoleRun) where
  and_then-Counts :
      (role : String) (roles : List String) (c : UpgradeCounters) (w : Progress)
      (next : UpgradeCounters → Progress)
      → RoleEnds req runs role c w
      → ((c : UpgradeCounters) → Counts req runs roles (next c).ok c (next c).counters)
      → Counts req runs (role ∷ roles) (and_then w next).ok c (and_then w next).counters
  and_then-Counts role roles c _ next (RoleEnds.commits w p ok sent n) rest =
      rw ok (rw n (commits p (rest (incr_committed role c))))
  and_then-Counts role roles c _ next (RoleEnds.skipped w p ok sent n) rest = rw ok (rw n (skips p))
  and_then-Counts role roles c _ next (RoleEnds.late w p ok sent n) rest =
      rw ok (rw n (times_out p))
  and_then-Counts role roles c _ next (RoleEnds.aborted w p ok sent n) rest =
      rw ok (rw n (aborts p))
  and_then-Counts role roles c _ next (RoleEnds.awaiting w p ok sent n) rest =
      rw ok (rw n (awaits p))
  and_then-Counts role roles c _ next (RoleEnds.observing w p ok sent n) rest =
      rw ok (rw n (observes p))

  walk-Counts :
      (roles : List String) (c : UpgradeCounters)
      → Counts req runs roles (walk req runs roles c).ok c (walk req runs roles c).counters
  unfolding walk
  walk-Counts [] c = none_left
  walk-Counts (role ∷ roles) c =
      and_then-Counts role roles c (upgrade_role role req (runs role) c) (walk req runs roles)
        (upgrade_role-RoleEnds req runs role c) (walk-Counts roles)

-- A rolling upgrade for known roles counts one committed upgrade for each role before the one at which
-- it stops, each of which reached a new generation with a clean canary, if there is one. For the role at
-- which it stops it counts a skip where the worker has no status, a timeout where no new generation is
-- seen in time, and a commit and an abort where a new generation is seen and the canary sees a worse
-- state; where it has no result yet, a commit if the canary is still open, and nothing before that.
pub rolling_upgrade-Counts :
    (req : RollingUpgradeRequest) (runs : String → RoleRun) (roles : List String)
    (c : UpgradeCounters)
    → targets req ≡ some roles
    → let w = rolling_upgrade false req runs c in Counts req runs roles w.ok c w.counters
unfolding rolling_upgrade
rolling_upgrade-Counts req runs roles c e =
    rw e (completed_counts roles c (walk req runs roles c) (walk-Counts req runs roles c))
  where
    completed_counts :
        (roles : List String) (c : UpgradeCounters) (w : Progress)
        → Counts req runs roles w.ok c w.counters
        → Counts req runs roles (completed w).ok c (completed w).counters
    completed_counts roles c w h = elim (Option-cases w.ok) [
      | inl e ↦ rw e (subst (λ ok. Counts req runs roles ok c w.counters) e h)
      | inr (b, e) ↦ rw e (subst (λ ok. Counts req runs roles ok c w.counters) e h)
    ]
