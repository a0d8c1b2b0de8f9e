-- ===== src/Link/Successor/Wait.antt =====
-- supervisor/worker.rs, `wait_for_successor`: which poll decides, and that one does.
use five_nines_echo.Base.{
  ℕ, ◌+◌, ◌*◌, ◌≤◌, ◌<◌, ◌≡◌, ◌≢◌, inl, inr, Option, none, some, List, [], ◌∷◌, ◌++◌, leb, length,
  All, Bool-cases, Option-cases, arith,
}
use five_nines_echo.Link.Successor.{
  SuccessorOutcome, WaitPoll, newer, wait_answer, wait_interval, wait_for_successor,
}

-- A poll that sees no newer generation, before the deadline.
abbrev pub Quiet : ℕ → ℕ → WaitPoll → Type 0
Quiet old_gen deadline p = (newer old_gen p.seen ≡ none) × (p.now < deadline)

-- The first poll that is not quiet decides; a newer generation comes before the deadline's test.
pub data Decides (old_gen deadline : ℕ) : List WaitPoll → Option SuccessorOutcome → Type 0 where
  waits :
      {polls : List WaitPoll}
      → All (Quiet old_gen deadline) polls
      → Decides old_gen deadline polls none
  adopts :
      (pre post : List WaitPoll) (p : WaitPoll) (g : ℕ)
      → All (Quiet old_gen deadline) pre
      → p.seen ≡ some g
      → old_gen < g
      → Decides old_gen deadline (pre ++ p ∷ post) (some (SuccessorOutcome.adopted g))
  expires :
      (pre post : List WaitPoll) (p : WaitPoll)
      → All (Quiet old_gen deadline) pre
      → newer old_gen p.seen ≡ none
      → deadline ≤ p.now
      → Decides old_gen deadline (pre ++ p ∷ post) (some SuccessorOutcome.timeout)

pub newer_seen : (old g : ℕ) (o : Option ℕ) → newer old o ≡ some g → (o ≡ some g) × (old < g)
newer_seen old g none h = cc
newer_seen old g (some seen) h = ground arith

Decides-cons :
    (old_gen deadline : ℕ) (p : WaitPoll) (ps : List WaitPoll) (o : Option SuccessorOutcome)
    → Quiet old_gen deadline p
    → Decides old_gen deadline ps o
    → Decides old_gen deadline (p ∷ ps) o
Decides-cons old_gen deadline p _ _ q (waits quiet) = waits (q, quiet)
Decides-cons old_gen deadline p _ _ q (adopts pre post p' g quiet e lt) =
    adopts (p ∷ pre) post p' g (q, quiet) e lt
Decides-cons old_gen deadline p _ _ q (expires pre post p' quiet e le) =
    expires (p ∷ pre) post p' (q, quiet) e le

-- `wait_for_successor` adopts at the first poll that sees a generation above the old one, unless a
-- poll at or after the deadline saw none before it; it times out at that poll; else it still waits.
pub wait_for_successor-Decides :
    (old_gen deadline : ℕ) (polls : List WaitPoll)
    → Decides old_gen deadline polls (wait_for_successor old_gen deadline polls)
unfolding wait_for_successor
wait_for_successor-Decides old_gen deadline [] = waits tt
wait_for_successor-Decides old_gen deadline (p ∷ ps) = elim (Option-cases (newer old_gen p.seen)) [
  | inr (g, e) ↦ let s = newer_seen old_gen g p.seen e in rw e (adopts [] ps p g tt s.0 s.1)
  | inl e ↦ elim (Bool-cases (leb deadline p.now)) [
    | inl late ↦ rw e (rw late (expires [] ps p tt e (ground arith)))
    | inr early ↦ rw e (
        rw early (
          Decides-cons old_gen deadline p ps _ (e, ground arith)
            (wait_for_successor-Decides old_gen deadline ps)))
  ]
]

-- Each poll comes an interval after the one before, at least.
abbrev pub Spaced : ℕ → List WaitPoll → Type 0
Spaced earliest [] = Unit
Spaced earliest (p ∷ ps) = (earliest ≤ p.now) × Spaced (p.now + wait_interval) ps

wait_step_total :
    (deadline now : ℕ) (o : Option ℕ) (rest : Option SuccessorOutcome)
    → (now < deadline → rest ≢ none)
    → wait_answer deadline now o rest ≢ none
wait_step_total deadline now none rest h = ground arith
wait_step_total deadline now (some g) rest h = λ e. cc

-- With the sleep between polls, the wait ends: as many polls as the intervals from the start to the
-- deadline, and one more, give an outcome.
pub wait_for_successor_total :
    (old_gen start deadline : ℕ) (polls : List WaitPoll)
    → Spaced start polls
    → start < deadline + wait_interval
    → deadline + wait_interval ≤ start + length polls * wait_interval
    → wait_for_successor old_gen deadline polls ≢ none
unfolding wait_for_successor
wait_for_successor_total old_gen start deadline [] spaced soon enough = omega arith
wait_for_successor_total old_gen start deadline (p ∷ ps) spaced soon enough =
    wait_step_total deadline p.now (newer old_gen p.seen) _ (λ early.
      wait_for_successor_total old_gen (p.now + wait_interval) deadline ps spaced.1 (omega arith)
        (omega (arith, spaced.0)))
