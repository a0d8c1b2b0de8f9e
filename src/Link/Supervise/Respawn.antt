-- ===== src/Link/Supervise/Respawn.antt =====
-- supervisor/worker.rs, `supervise_role`: the passes that respawn at once.
use five_nines_echo.Base.{
  ℕ, ◌<◌, ◌≡◌, refl, subst, inl, inr, true, false, Option, none, some, List, [], ◌∷◌, String,
  Bool-cases, Option-cases, arith,
}
use five_nines_echo.Watchdog.{
  Watchdogs, WatchdogEvent, record_watchdog_event, record_watchdog_exit, is_commit,
}
use five_nines_echo.Link.Successor.{
  SuccessorOutcome, MonitorOutcome, wait_for_successor, monitor_successor, successor_loss_grace,
}
use five_nines_echo.Link.Supervise.{
  deadline_of, Round, RoleState, Pass, Then, Result, or_else, exit_status, after_commit, after_exit,
  supervise_adopted_successor, pass,
}
use five_nines_echo.Link.Supervise.Generations.{baseline, Decides-above, Ends-above}
use five_nines_echo.Link.Successor.Monitor.{Ends, monitor_successor-Ends}
use five_nines_echo.Link.Successor.Wait.{wait_for_successor-Decides}

-- The successor of a generation, or a later one that took its place at a newer generation, was lost:
-- its connection was gone for the whole of the grace.
pub data Loses : ℕ → List Round → Type 0 where
  here :
      {generation : ℕ} (r : Round) (rs : List Round)
      → Ends generation successor_loss_grace none r.polls (some MonitorOutcome.lost)
      → Loses generation (r ∷ rs)
  later :
      {generation : ℕ} (r : Round) (rs : List Round) (g : ℕ)
      → generation < g
      → Ends generation successor_loss_grace none r.polls (some (MonitorOutcome.readopted g))
      → Loses g rs
      → Loses generation (r ∷ rs)

monitored :
    (r : Round) (generation : ℕ) (o : Option MonitorOutcome)
    → (monitor_successor r.seen_pid generation successor_loss_grace r.polls).0 ≡ o
    → Ends generation successor_loss_grace none r.polls o
monitored r generation o e =
    subst (λ o. Ends generation successor_loss_grace none r.polls o) e
      (monitor_successor-Ends r.seen_pid generation successor_loss_grace r.polls)

lost-Loses :
    (role : String) (generation : ℕ) (wd : Watchdogs) (pid : Option ℕ) (rounds : List Round)
    → let a = supervise_adopted_successor role generation wd pid rounds in
      a.lost ≡ true → Loses generation rounds × (a.current_pid ≡ none)
unfolding supervise_adopted_successor
lost-Loses role generation wd pid [] h = cc
lost-Loses role generation wd pid (r ∷ rs) h =
    let m = monitor_successor r.seen_pid generation successor_loss_grace r.polls in
    let wd' = record_watchdog_event r.adopted_at 0 wd role WatchdogEvent.adoption in
    elim (Option-cases m.0) [
      | inl e ↦ cc (simp (supervise_adopted_successor, e) at h)
      | inr (MonitorOutcome.lost, e) ↦
          rw (supervise_adopted_successor, e) (Loses.here r rs (monitored r generation _ e), refl)
      | inr (MonitorOutcome.readopted g, e) ↦
          let ends = monitored r generation (some (MonitorOutcome.readopted g)) e in
          let (loss, gone) =
            lost-Loses role g wd' m.1 rs (simp (supervise_adopted_successor, e) at h) in
          rw (supervise_adopted_successor, e)
            (Loses.later r rs g (Ends-above _ g ends refl) ends loss, gone)
    ]

-- The exit was a commit, its successor was adopted, and it was lost.
abbrev pub HandedOver : ℕ → Pass → Result → Type 0
HandedOver old p r =
    (p.stopping ≡ false)
    × (is_commit (exit_status p.status) ≡ true)
    × ((g : ℕ) × (old < g)
        × (wait_for_successor old (deadline_of p) p.wait_polls ≡ some (SuccessorOutcome.adopted g))
        × Loses g p.rounds)
    × ((r.state).current_pid ≡ none)

after_commit-respawn :
    (role : String) (gen old backoff : ℕ) (wd : Watchdogs) (p : Pass) (o : Option SuccessorOutcome)
    → (after_commit role gen backoff wd p.rounds o).then_ ≡ Then.respawn
    → ((g : ℕ) × (o ≡ some (SuccessorOutcome.adopted g)) × Loses g p.rounds)
      × ((after_commit role gen backoff wd p.rounds o).state.current_pid ≡ none)
after_commit-respawn role gen old backoff wd p none h = cc
after_commit-respawn role gen old backoff wd p (some SuccessorOutcome.timeout) h = cc
after_commit-respawn role gen old backoff wd p (some (SuccessorOutcome.adopted g)) h =
    elim (Bool-cases (supervise_adopted_successor role g wd none p.rounds).lost) [
      | inl t ↦ let (loss, gone) = lost-Loses role g wd none p.rounds t in ((g, refl, loss), gone)
      | inr watched ↦ ground (arith, watched, h)
    ]

after_exit-respawn :
    (role : String) (gen : ℕ) (wd : Watchdogs) (p : Pass)
    → (after_exit role gen wd p).then_ ≡ Then.respawn
    → HandedOver (or_else gen p.reported) p (after_exit role gen wd p)
after_exit-respawn role gen wd p h = elim (Bool-cases p.stopping) [
  | inl on ↦ ground (arith, h)
  | inr off ↦ elim (Bool-cases (is_commit (exit_status p.status))) [
    | inr crash ↦ ground (arith, h)
    | inl commit ↦
        let x = record_watchdog_exit p.exited_at wd role (exit_status p.status) in
        let old = or_else gen p.reported in
        let c =
          after_commit-respawn role gen old x.1 x.0 p
            (wait_for_successor old (deadline_of p) p.wait_polls) (simp (off, commit) at h) in
        let above =
          Decides-above (wait_for_successor old (deadline_of p) p.wait_polls) c.0.0
            (wait_for_successor-Decides old (deadline_of p) p.wait_polls) c.0.1 in
        (off, commit, (c.0.0, above, c.0.1, c.0.2), rw off (rw commit c.1))
  ]
]

-- A pass that ends in a spawn with no backoff is one whose worker exited by an upgrade commit and whose
-- successor was adopted, at a generation above the one that the supervisor knew the worker by; and then
-- that successor, or the last of those that took its place one after the other at newer generations,
-- had no connection for the whole of the loss grace. No pid is left over.
pub pass-respawn :
    (role : String) (s : RoleState) (p : Pass)
    → (pass role s p).then_ ≡ Then.respawn
    → HandedOver (baseline s p) p (pass role s p)
unfolding pass
pass-respawn role s p h = elim (Option-cases s.next) [
  | inr (child, e) ↦ rw e (after_exit-respawn role s.current_generation s.watchdogs p (simp e at h))
  | inl e ↦ elim (Option-cases p.spawned) [
    | inl failed ↦ ground (arith, h)
    | inr (child, ok) ↦ rw e (rw ok (after_exit-respawn role 0 _ p (simp (e, ok) at h)))
  ]
]
