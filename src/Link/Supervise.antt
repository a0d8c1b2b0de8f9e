-- ===== src/Link/Supervise.antt =====
-- supervisor/worker.rs, `supervise_role`: one pass of the loop that keeps a role's worker running. The
-- answers of the kernel, of the clock and of the link in the pass are arguments.
pub mod Generations
pub mod Respawn
use five_nines_echo.Base.{
  ℕ, ◌+◌, String, Bool, true, false, Option, none, some, List, [], ◌∷◌, if◌then◌else◌,
}
use five_nines_echo.Base.Words.{from_millis}
use five_nines_echo.Watchdog.{
  ExitStatus, Watchdogs, WatchdogEvent, record_watchdog_event, record_watchdog_exit, is_commit,
}
use five_nines_echo.Link.Successor.{
  SuccessorOutcome, MonitorOutcome, WaitPoll, Poll, wait_for_successor, monitor_successor,
  successor_loss_grace, successor_wait_timeout,
}

-- One turn of `supervise_adopted_successor`: when it adopts, the pid it reads from the link, and what
-- it then polls.
pub record Round : Type 0 where
  pub adopted_at : ℕ
  pub seen_pid : Option ℕ
  pub polls : List Poll

-- Whether the successor was lost (it is still watched if not), and each generation adopted.
pub record Adopted : Type 0 where
  pub lost : Bool
  pub watchdogs : Watchdogs
  pub current_pid : Option ℕ
  pub generations : List ℕ

unfoldable pub supervise_adopted_successor :
    String → ℕ → Watchdogs → Option ℕ → List Round → Adopted
supervise_adopted_successor role generation wd pid [] = record {
  lost = false;
  watchdogs = wd;
  current_pid = pid;
  generations = [];
}
supervise_adopted_successor role generation wd pid (r ∷ rs) =
    let wd' = record_watchdog_event r.adopted_at 0 wd role WatchdogEvent.adoption in
    let m = monitor_successor r.seen_pid generation successor_loss_grace r.polls in
    elim m.0 [
      | some (MonitorOutcome.readopted g) ↦
          let rest = supervise_adopted_successor role g wd' m.1 rs in
          record rest { generations = generation ∷ rest.generations }
      | some MonitorOutcome.lost ↦ record {
        lost = true;
        watchdogs = wd';
        current_pid = none;
        generations = generation ∷ [];
      }
      | none ↦ record {
        lost = false;
        watchdogs = wd';
        current_pid = m.1;
        generations = generation ∷ [];
      }
    ]

-- The locals of `supervise_role`, with what it shares; `next` is a worker adopted at the start.
pub record RoleState : Type 0 where
  pub current_generation : ℕ
  pub next : Option ℕ
  pub current_pid : Option ℕ
  pub watchdogs : Watchdogs

-- `alive` is the probe of a pid by `kill`.
abbrev pub start : (ℕ → Bool) → ℕ → String → Option ℕ → ℕ → Watchdogs → RoleState
start alive now role none adopted_gen wd = record {
  current_generation = adopted_gen;
  next = none;
  current_pid = none;
  watchdogs = wd;
}
start alive now role (some p) adopted_gen wd =
    if alive p
    then record {
      current_generation = adopted_gen;
      next = some p;
      current_pid = none;
      watchdogs = record_watchdog_event now 0 wd role WatchdogEvent.adoption;
    }
    else record {
      current_generation = adopted_gen;
      next = none;
      current_pid = none;
      watchdogs = wd;
    }

pub record Pass : Type 0 where
  pub spawned_at : ℕ
  pub spawned_unix_ms : ℕ
  -- the spawned child, which has a pid unless it was reaped; `none` is a spawn that failed
  pub spawned : Option (Option ℕ)
  -- the link's generation before the wait for the child
  pub reported : Option ℕ
  pub exited_at : ℕ
  -- `none` is a wait that failed
  pub status : Option ExitStatus
  pub stopping : Bool
  -- when the wait for a successor begins
  pub wait_from : ℕ
  pub wait_polls : List WaitPoll
  pub rounds : List Round

abbrev pub deadline_of : Pass → ℕ
deadline_of p = p.wait_from + successor_wait_timeout

-- How a pass ends: a sleep before the next one, the next one at once, the end of the loop, or not yet.
pub data Then : Type 0 where
  sleep : ℕ → Then
  respawn stop waiting : Then

pub record Result : Type 0 where
  pub state : RoleState
  pub then_ : Then
  pub generations : List ℕ

abbrev pub or_else : ℕ → Option ℕ → ℕ
or_else d none = d
or_else d (some n) = n

-- `ExitStatus::from_raw(0)` when the wait failed.
abbrev pub exit_status : Option ExitStatus → ExitStatus
exit_status none = record { code = some 0 }
exit_status (some status) = status

abbrev idle_state : ℕ → Option ℕ → Watchdogs → RoleState
idle_state gen pid wd = record {
  current_generation = gen;
  next = none;
  current_pid = pid;
  watchdogs = wd;
}

abbrev pub after_adoption : ℕ → Adopted → Result
after_adoption gen a = record {
  state = idle_state gen a.current_pid a.watchdogs;
  then_ = if a.lost then Then.respawn else Then.waiting;
  generations = a.generations;
}

-- After a commit: what `wait_for_successor` answered.
abbrev pub after_commit : String → ℕ → ℕ → Watchdogs → List Round → Option SuccessorOutcome → Result
after_commit role gen backoff wd rounds none = record {
  state = idle_state gen none wd;
  then_ = Then.waiting;
  generations = [];
}
after_commit role gen backoff wd rounds (some SuccessorOutcome.timeout) = record {
  state = idle_state gen none wd;
  then_ = Then.sleep backoff;
  generations = [];
}
after_commit role gen backoff wd rounds (some (SuccessorOutcome.adopted g)) =
    after_adoption gen (supervise_adopted_successor role g wd none rounds)

-- From the wait for the child on, with the generation it runs at.
abbrev pub after_exit : String → ℕ → Watchdogs → Pass → Result
after_exit role gen wd p =
    let baseline = or_else gen p.reported in
    let (wd', backoff, logged) = record_watchdog_exit p.exited_at wd role (exit_status p.status) in
    if p.stopping
    then record { state = idle_state gen none wd'; then_ = Then.stop; generations = [] }
    else if is_commit (exit_status p.status)
    then after_commit role gen backoff wd' p.rounds
        (wait_for_successor baseline (deadline_of p) p.wait_polls)
    else record { state = idle_state gen none wd'; then_ = Then.sleep backoff; generations = [] }

abbrev pub after_spawn : String → Option ℕ → Watchdogs → Pass → Option (Option ℕ) → Result
after_spawn role pid wd p none = record {
  state = idle_state 0 pid wd;
  then_ = Then.sleep (from_millis 500);
  generations = [];
}
after_spawn role pid wd p (some child) = after_exit role 0 wd p

-- A worker to adopt, or else a spawn, which starts again at generation 0.
abbrev pub with_child : String → RoleState → Pass → Option ℕ → Result
with_child role s p (some child) = after_exit role s.current_generation s.watchdogs p
with_child role s p none =
    after_spawn role s.current_pid
      (record_watchdog_event p.spawned_at p.spawned_unix_ms s.watchdogs role WatchdogEvent.spawn) p
      p.spawned

unfoldable pub pass : String → RoleState → Pass → Result
pass role s p = with_child role s p s.next
