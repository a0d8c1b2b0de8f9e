-- ===== src/Limits/Session/Bound.antt =====
-- limits.rs, `SessionCap`: the counter counts the guards, and the cap is never passed.
use five_nines_echo.Base.{
  ℕ, zero, suc, ◌+◌, ◌^◌, ◌≤◌, ◌<◌, ◌≡◌, refl, sym, ap, ◌∙◌, inl, inr, Bool, true, false, some,
  List, [], ◌∷◌, if◌then◌else◌, get_elem?, set, length, length-set, count_if, count_if-set,
  count_if-le-length, arith, Option-cases, All, All-set, All-get_elem?,
}
use five_nines_echo.Limits.Session.{Task, System, act, step_task, step, run, start, idle_tasks}

abbrev pub holds : Task → Bool
holds Task.holding = true
holds Task.idle = false
holds Task.looping = false
holds (Task.loaded cur) = false
holds Task.refused = false

abbrev pub guards : System → ℕ
guards s = count_if holds s.tasks

-- A value that a task has loaded was below the cap.
abbrev pub Sound : ℕ → Task → Type 0
Sound cap (Task.loaded cur) = cur < cap
Sound cap Task.idle = Unit
Sound cap Task.looping = Unit
Sound cap Task.refused = Unit
Sound cap Task.holding = Unit

-- `n` tasks share a counter with a cap.
pub record Inv (n : ℕ) (s : System) : Type 0 where
  pub few : length s.tasks ≡ n
  pub exact : s.shared.in_flight ≡ guards s
  pub sound : All (Sound s.shared.cap) s.tasks
  pub within : 0 < s.shared.cap → s.shared.in_flight ≤ s.shared.cap

-- One atomic access changes the counter by as many guards as the task gains or loses.
act_counts :
    (cap : ℕ) (t : Task) (n : ℕ)
    → (if holds t then 1 else 0) ≤ n
    → n + (if holds t then 0 else 1) < 2 ^ 64
    → (act cap t n).1 + (if holds t then 1 else 0) ≡ n + (if holds (act cap t n).0 then 1 else 0)
unfolding act
act_counts cap Task.idle n h b = ground arith
act_counts cap Task.looping n h b = ground arith
act_counts cap (Task.loaded cur) n h b = ground arith
act_counts cap Task.refused n h b = ground arith
act_counts cap Task.holding n h b = ground arith

act-Sound : (cap : ℕ) (t : Task) (n : ℕ) → Sound cap t → Sound cap (act cap t n).0
unfolding act
act-Sound cap Task.idle n h = ground arith
act-Sound cap Task.looping n h = ground arith
act-Sound cap (Task.loaded cur) n h = ground arith
act-Sound cap Task.refused n h = ground arith
act-Sound cap Task.holding n h = ground arith

act_within :
    (cap : ℕ) (t : Task) (n : ℕ)
    → Sound cap t
    → (if holds t then 1 else 0) ≤ n
    → n < 2 ^ 64
    → 0 < cap
    → n ≤ cap
    → (act cap t n).1 ≤ cap
unfolding act
act_within cap Task.idle n h g b p k = ground arith
act_within cap Task.looping n h g b p k = ground arith
act_within cap (Task.loaded cur) n h g b p k = ground arith
act_within cap Task.refused n h g b p k = ground arith
act_within cap Task.holding n h g b p k = ground arith

-- The guards of the others leave room for one more in a word.
room :
    (n : ℕ) (tasks : List Task) (i : ℕ) (t : Task)
    → n < 2 ^ 64
    → length tasks ≡ n
    → get_elem? tasks i ≡ some t
    → ((if holds t then 1 else 0) ≤ count_if holds tasks)
      × (count_if holds tasks + (if holds t then 0 else 1) < 2 ^ 64)
room n tasks i t b l e = ground (
  arith,
  count_if-set holds tasks i Task.idle e,
  count_if-set holds tasks i Task.holding e,
  count_if-le-length holds (set tasks i Task.holding),
  length-set tasks i Task.holding,
)

moved :
    (cap n : ℕ) (tasks : List Task) (i : ℕ) (t : Task) (c : ℕ)
    → n < 2 ^ 64
    → get_elem? tasks i ≡ some t
    → Inv n (record { shared = record { in_flight = c; cap = cap }; tasks = tasks })
    → Inv n (
        step_task
          (record { shared = record { in_flight = c; cap = cap }; tasks = tasks })
          i
          (some t))
moved cap n tasks i t c b e v = record {
  few = length-set tasks i _ ∙ v.few;
  exact =
      omega (arith, act_counts cap t c, count_if-set holds tasks i (act cap t c).0 e, r, v.exact);
  sound = All-set (Sound cap) tasks i _ (act-Sound cap t c t_sound) v.sound;
  within = λ p.
      act_within cap t c t_sound (omega (arith, r, v.exact)) (omega (arith, r, v.exact)) p
        (v.within p);
}
  where
    r :
        ((if holds t then 1 else 0) ≤ count_if holds tasks)
        × (count_if holds tasks + (if holds t then 0 else 1) < 2 ^ 64)
    r = room n tasks i t b v.few e

    t_sound : Sound cap t
    t_sound = All-get_elem? (Sound cap) tasks i v.sound e

step-Inv : (n : ℕ) (s : System) (i : ℕ) → n < 2 ^ 64 → Inv n s → Inv n (step s i)
unfolding step
step-Inv n s i b v = elim (Option-cases (get_elem? s.tasks i)) [
  | inl e ↦ rw (e, step_task) v
  | inr (t, e) ↦ rw (e, step_task) (moved s.shared.cap n s.tasks i t s.shared.in_flight b e v)
]

step-cap : (s : System) (i : ℕ) → (step s i).shared.cap ≡ s.shared.cap
unfolding step
step-cap s i = ground arith

pub run-Inv : (n : ℕ) (s : System) (is : List ℕ) → n < 2 ^ 64 → Inv n s → Inv n (run s is)
unfolding run
run-Inv n s [] b v = v
run-Inv n s (i ∷ is) b v = run-Inv n (step s i) is b (step-Inv n s i b v)

pub run-cap : (s : System) (is : List ℕ) → (run s is).shared.cap ≡ s.shared.cap
unfolding run
run-cap s [] = refl
run-cap s (i ∷ is) = run-cap (step s i) is ∙ step-cap s i

no_guards : (n : ℕ) → count_if holds (idle_tasks n) ≡ 0
no_guards zero = refl
no_guards (suc n) = omega (arith, no_guards n)

length-idle_tasks : (n : ℕ) → length (idle_tasks n) ≡ n
length-idle_tasks zero = refl
length-idle_tasks (suc n) = ap suc (length-idle_tasks n)

idle_tasks-Sound : (cap n : ℕ) → All (Sound cap) (idle_tasks n)
idle_tasks-Sound cap zero = tt
idle_tasks-Sound cap (suc n) = (tt, idle_tasks-Sound cap n)

pub start-Inv : (cap n : ℕ) → Inv n (start cap n)
start-Inv cap n = record {
  few = length-idle_tasks n;
  exact = sym (no_guards n);
  sound = idle_tasks-Sound cap n;
  within = λ p. omega arith;
}

-- However fewer than 2^64 tasks interleave their atomic accesses, the counter is the number of guards
-- alive, and with a cap other than 0 never more guards are alive than the cap.
pub guards-le-cap :
    (c n : ℕ) (schedule : List ℕ)
    → n < 2 ^ 64
    → let s = run (start c n) schedule in (s.shared.in_flight ≡ guards s) × (0 < c → guards s ≤ c)
guards-le-cap c n schedule b =
    let v = run-Inv n (start c n) schedule b (start-Inv c n) in
    (v.exact, λ p. omega (arith, v.exact, v.within, run-cap (start c n) schedule))
