-- ===== src/Limits/Session/Acquire.antt =====
-- limits.rs, `SessionCap::try_acquire`: what a task gets that is not disturbed.
use five_nines_echo.Base.{
  ℕ, ◌^◌, ◌≤◌, ◌<◌, ◌≡◌, refl, some, List, get_elem?, set, get_elem?-set_self, arith,
}
use five_nines_echo.Limits.Session.{Task, System, act, step_task, step, run, start}
use five_nines_echo.Limits.Session.Bound.{guards, run-Inv, run-cap, start-Inv}

-- What one step does to the task itself.
step_self :
    (s : System) (i : ℕ) (t : Task)
    → get_elem? s.tasks i ≡ some t
    → (step s i ≡ step_task s i (some t))
      × (get_elem? (step s i).tasks i ≡ some (act s.shared.cap t s.shared.in_flight).0)
unfolding step
step_self s i t e = rw (e, step_task) (refl, get_elem?-set_self s.tasks i _ e)

load_ok : (cap n : ℕ) → n < cap → act cap Task.idle n ≡ (Task.loaded n, n)
unfolding act
load_ok cap n k = ground arith

swap_ok : (cap n : ℕ) → (act cap (Task.loaded n) n).0 ≡ Task.holding
unfolding act
swap_ok cap n = ground arith

-- The two accesses of `try_acquire` with no other task between them.
two_steps :
    (s : System) (i : ℕ)
    → get_elem? s.tasks i ≡ some Task.idle
    → s.shared.in_flight < s.shared.cap
    → get_elem? (step (step s i) i).tasks i ≡ some Task.holding
two_steps s i e k = rw (← swap_ok s.shared.cap s.shared.in_flight) second
  where
    after_load : step s i ≡ record s { tasks = set s.tasks i (Task.loaded s.shared.in_flight) }
    after_load = rw ((step_self s i Task.idle e).0, load_ok s.shared.cap s.shared.in_flight k)

    second :
        get_elem? (step (step s i) i).tasks i
        ≡ some (act s.shared.cap (Task.loaded s.shared.in_flight) s.shared.in_flight).0
    second =
        rw after_load
          ((step_self _ i (Task.loaded s.shared.in_flight) (get_elem?-set_self s.tasks i _ e)).1)

alone :
    (c : ℕ) (s : System) (i : ℕ)
    → s.shared.cap ≡ c
    → get_elem? s.tasks i ≡ some Task.idle
    → (c ≡ 0 → get_elem? (step s i).tasks i ≡ some Task.holding)
      × (s.shared.in_flight < c → get_elem? (step (step s i) i).tasks i ≡ some Task.holding)
      × (0 < c → c ≤ s.shared.in_flight → get_elem? (step s i).tasks i ≡ some Task.refused)
unfolding act
alone c s i h e = (
  λ z. rw ((step_self s i Task.idle e).1) (ground arith),
  λ k. two_steps s i e (omega arith),
  λ p k. rw ((step_self s i Task.idle e).1) (ground arith),
)

-- In every state that fewer than 2^64 tasks can reach, a task that starts `try_acquire` and is not
-- disturbed gets a guard if the cap is 0 or above the number of guards alive, and is refused if not.
pub try_acquire_alone :
    (c n : ℕ) (schedule : List ℕ) (i : ℕ)
    → n < 2 ^ 64
    → get_elem? (run (start c n) schedule).tasks i ≡ some Task.idle
    → let s = run (start c n) schedule in
      (c ≡ 0 → get_elem? (step s i).tasks i ≡ some Task.holding)
      × (guards s < c → get_elem? (step (step s i) i).tasks i ≡ some Task.holding)
      × (0 < c → c ≤ guards s → get_elem? (step s i).tasks i ≡ some Task.refused)
try_acquire_alone c n schedule i b e =
    rw (← (run-Inv n (start c n) schedule b (start-Inv c n)).exact)
      (alone c (run (start c n) schedule) i (run-cap (start c n) schedule) e)
