-- ===== src/Link/Supervise/Generations.antt =====
-- supervisor/worker.rs, `supervise_role`: which generations a pass adopts, and when it respawns.
use five_nines_echo.Base.{
  ℕ, ◌<◌, ◌≡◌, refl, inl, inr, Option, none, some, List, [], ◌∷◌, String, Bool-cases, Option-cases,
  arith,
}
use five_nines_echo.Watchdog.{
  Watchdogs, WatchdogEvent, record_watchdog_event, record_watchdog_exit, is_commit,
}
use five_nines_echo.Link.Successor.{
  SuccessorOutcome, MonitorOutcome, WaitPoll, Poll, wait_for_successor, monitor_successor,
  successor_loss_grace,
}
use five_nines_echo.Link.Successor.Wait.{Decides, wait_for_successor-Decides}
use five_nines_echo.Link.Successor.Monitor.{Ends, monitor_successor-Ends}
use five_nines_echo.Link.Supervise.{
  deadline_of, Round, RoleState, Pass, or_else, exit_status, after_commit, after_exit,
  supervise_adopted_successor, pass,
}

-- Each generation is above the one before.
abbrev pub Ascending : ℕ → List ℕ → Type 0
Ascending below [] = Unit
Ascending below (g ∷ gs) = (below < g) × Ascending g gs

pub Decides-above :
    {old deadline : ℕ} {polls : List WaitPoll} (o : Option SuccessorOutcome) (g : ℕ)
    → Decides old deadline polls o
    → o ≡ some (SuccessorOutcome.adopted g)
    → old < g
Decides-above _ g (Decides.waits q) e = cc
Decides-above _ g (Decides.adopts pre post p g' q s lt) e = ground arith
Decides-above _ g (Decides.expires pre post p q s le) e = cc

pub Ends-above :
    {gen grace : ℕ} {since : Option ℕ} {polls : List Poll} (o : Option MonitorOutcome) (g : ℕ)
    → Ends gen grace since polls o
    → o ≡ some (MonitorOutcome.readopted g)
    → gen < g
Ends-above _ g (Ends.watches q) e = cc
Ends-above _ g (Ends.readopts pre post p g' q s lt) e = ground arith
Ends-above _ g (Ends.loses pre mid post first last a b c d le) e = cc
Ends-above _ g (Ends.runs_out mid post last t a b c le) e = cc

supervise_adopted_successor-Ascending :
    (role : String) (old generation : ℕ) (wd : Watchdogs) (pid : Option ℕ) (rounds : List Round)
    → old < generation
    → Ascending old (supervise_adopted_successor role generation wd pid rounds).generations
unfolding supervise_adopted_successor
supervise_adopted_successor-Ascending role old generation wd pid [] lt = tt
supervise_adopted_successor-Ascending role old generation wd pid (r ∷ rs) lt =
    let m = monitor_successor r.seen_pid generation successor_loss_grace r.polls in
    let wd' = record_watchdog_event r.adopted_at 0 wd role WatchdogEvent.adoption in
    elim (Option-cases m.0) [
      | inl e ↦ rw (supervise_adopted_successor, e) (lt, tt)
      | inr (MonitorOutcome.lost, e) ↦ rw (supervise_adopted_successor, e) (lt, tt)
      | inr (MonitorOutcome.readopted g, e) ↦
          rw (supervise_adopted_successor, e)
            (
              lt,
              supervise_adopted_successor-Ascending role generation g wd' m.1 rs (
                  Ends-above m.0 g
                    (monitor_successor-Ends r.seen_pid generation successor_loss_grace r.polls) e),
            )
    ]

after_commit-Ascending :
    (role : String) (gen baseline backoff : ℕ) (wd : Watchdogs) (p : Pass)
    (o : Option SuccessorOutcome)
    → Decides baseline (deadline_of p) p.wait_polls o
    → Ascending baseline (after_commit role gen backoff wd p.rounds o).generations
after_commit-Ascending role gen baseline backoff wd p none d = tt
after_commit-Ascending role gen baseline backoff wd p (some SuccessorOutcome.timeout) d = tt
after_commit-Ascending role gen baseline backoff wd p (some (SuccessorOutcome.adopted g)) d =
    supervise_adopted_successor-Ascending role baseline g wd none p.rounds
      (Decides-above (some (SuccessorOutcome.adopted g)) g d refl)

after_exit-Ascending :
    (role : String) (gen : ℕ) (wd : Watchdogs) (p : Pass)
    → Ascending (or_else gen p.reported) (after_exit role gen wd p).generations
after_exit-Ascending role gen wd p = elim (Bool-cases p.stopping) [
  | inl on ↦ rw on tt
  | inr off ↦ elim (Bool-cases (is_commit (exit_status p.status))) [
    | inr crash ↦ rw off (rw crash tt)
    | inl commit ↦
        let x = record_watchdog_exit p.exited_at wd role (exit_status p.status) in
        rw off (
          rw commit (
            after_commit-Ascending role gen (or_else gen p.reported) x.1 x.0 p
              (wait_for_successor (or_else gen p.reported) (deadline_of p) p.wait_polls)
              (wait_for_successor-Decides (or_else gen p.reported) (deadline_of p) p.wait_polls)))
  ]
]

-- The generation a worker runs at in a pass, as far as the supervisor knows: what the link reported
-- last, or that of the adopted worker, or 0 for one that the pass spawns.
abbrev pub baseline : RoleState → Pass → ℕ
baseline s p = or_else (elim s.next [ none ↦ 0 | some child ↦ s.current_generation ]) p.reported

-- In every pass, the successors adopted after a commit have ascending generations, and the first is
-- above the one that the supervisor knew the exited worker by before it waited for its exit: what the
-- link had reported by then, or else the generation that the worker was adopted at, or 0 for a worker
-- that the pass spawned.
pub pass-Ascending :
    (role : String) (s : RoleState) (p : Pass)
    → Ascending (baseline s p) (pass role s p).generations
unfolding pass
pass-Ascending role s p = elim (Option-cases s.next) [
  | inr (child, e) ↦ rw e (after_exit-Ascending role s.current_generation s.watchdogs p)
  | inl e ↦ elim (Option-cases p.spawned) [
    | inl failed ↦ rw e (rw failed tt)
    | inr (child, ok) ↦ rw e (rw ok (after_exit-Ascending role 0 _ p))
  ]
]
