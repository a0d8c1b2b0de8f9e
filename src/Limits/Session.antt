-- ===== src/Limits/Session.antt =====
-- limits.rs, `SessionCap`: one atomic counter that many tasks raise by compare-and-swap and lower when
-- their guard is dropped. Each atomic access is one step; a task is where it stands between two.
pub mod Acquire
pub mod Bound
use five_nines_echo.Base.{
  ℕ, zero, suc, ◌+◌, ◌≤◌, ◌<◌, ◌≡◌, Bool, true, false, Option, none, some, List, [], ◌∷◌, leb,
  nat_beq, if◌then◌else◌, get_elem?, set,
}
use five_nines_echo.Base.Words.{u64, u64_max}

pub record SessionCap : Type 0 where
  pub in_flight : ℕ
  pub cap : ℕ

abbrev pub new : ℕ → SessionCap
new cap = record { in_flight = 0; cap = cap }

-- `fetch_add` and `fetch_sub` wrap.
abbrev pub fetch_add_one : ℕ → ℕ
fetch_add_one n = u64 (n + 1)

abbrev pub fetch_sub_one : ℕ → ℕ
fetch_sub_one n = u64 (n + u64_max)

-- Before `try_acquire`; at the head of its loop; after the load of `cur`; refused; with a guard.
pub data Task : Type 0 where
  idle : Task
  looping : Task
  loaded : ℕ → Task
  refused : Task
  holding : Task

-- The load at the head of the loop and the test on what it read; without a cap, the `fetch_add`.
abbrev head_of_loop : ℕ → ℕ → Task × ℕ
head_of_loop cap n =
    if nat_beq cap 0
    then (Task.holding, fetch_add_one n)
    else if leb cap n
    then (Task.refused, n)
    else (Task.loaded n, n)

-- The next atomic access of a task, on the counter's value. A task that holds a guard drops it; one
-- that was refused may try again.
unfoldable pub act : ℕ → Task → ℕ → Task × ℕ
act cap Task.idle n = head_of_loop cap n
act cap Task.looping n = head_of_loop cap n
act cap (Task.loaded cur) n =
    if nat_beq n cur then (Task.holding, fetch_add_one cur) else (Task.looping, n)
act cap Task.refused n = (Task.idle, n)
act cap Task.holding n = (Task.idle, fetch_sub_one n)

pub record System : Type 0 where
  pub shared : SessionCap
  pub tasks : List Task

-- One step of task `i`; there is none past the end of the list.
abbrev step_task : System → ℕ → Option Task → System
step_task s i none = s
step_task s i (some t) =
    let (t', n) = act s.shared.cap t s.shared.in_flight in
    record { shared = record { in_flight = n; cap = s.shared.cap }; tasks = set s.tasks i t' }

unfoldable pub step : System → ℕ → System
unfolding act
step s i = step_task s i (get_elem? s.tasks i)

-- A schedule names the task of each step.
unfoldable pub run : System → List ℕ → System
run s [] = s
run s (i ∷ is) = run (step s i) is

abbrev pub idle_tasks : ℕ → List Task
idle_tasks zero = []
idle_tasks (suc n) = Task.idle ∷ idle_tasks n

-- `n` tasks that share a new cap.
abbrev pub start : ℕ → ℕ → System
start cap n = record { shared = new cap; tasks = idle_tasks n }
