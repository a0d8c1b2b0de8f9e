-- ===== src/Grandparent/Waits.antt =====
-- grandparent.rs: how long the grandparent sleeps after each crash.
use five_nines_echo.Base.{
  ℕ, zero, suc, ◌*◌, ◌≡◌, refl, ap, inl, inr, min, List, [], ◌∷◌, ltb, if◌then◌else◌, Bool-cases,
}
use five_nines_echo.Grandparent.{
  min_backoff, max_backoff, healthy_uptime, Outcome, Action, run_from, run,
}

-- Half a second, doubled `n` times, at most half a minute.
abbrev pub doubled : ℕ → ℕ
doubled zero = min_backoff
doubled (suc n) = min (doubled n * 2) max_backoff

-- The crashes in a row before this one, if `n` came before and it was up for `uptime`.
abbrev pub in_a_row : ℕ → ℕ → ℕ
in_a_row n uptime = if ltb healthy_uptime uptime then zero else n

-- What is expected of the loop, told by the number of crashes in a row.
abbrev pub expected : ℕ → List Outcome → List Action
expected n [] = []
expected n (Outcome.signaled ∷ os) = Action.stop ∷ []
expected n (Outcome.exited_cleanly ∷ os) = Action.stop ∷ []
expected n (Outcome.crashed uptime ∷ os) =
    Action.kill_and_sleep (doubled (in_a_row n uptime)) ∷ expected (suc (in_a_row n uptime)) os

run_from-expected : (n : ℕ) (os : List Outcome) → run_from (doubled n) os ≡ expected n os
unfolding run_from
run_from-expected n [] = refl
run_from-expected n (Outcome.signaled ∷ os) = refl
run_from-expected n (Outcome.exited_cleanly ∷ os) = refl
run_from-expected n (Outcome.crashed uptime ∷ os) = elim (Bool-cases (ltb healthy_uptime uptime)) [
  | inl long ↦
      rw long (ap (λ r. Action.kill_and_sleep min_backoff ∷ r) (run_from-expected (suc zero) os))
  | inr short ↦
      rw short (ap (λ r. Action.kill_and_sleep (doubled n) ∷ r) (run_from-expected (suc n) os))
]

-- The grandparent stops at a signal or a clean exit. After a crash it kills the supervisor's group and
-- sleeps half a second, doubled for each crash in a row before this one and at most 30 s, where a
-- supervisor that was up for more than a minute starts a new row.
pub run-expected : (os : List Outcome) → run os ≡ expected 0 os
unfolding run
run-expected os = run_from-expected 0 os
