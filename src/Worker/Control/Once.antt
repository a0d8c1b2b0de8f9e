-- ===== src/Worker/Control/Once.antt =====
-- What a control client has asked of its worker when it ends.
use five_nines_echo.Base.{
  ℕ, ◌≡◌, refl, ap, ◌∙◌, Bool, true, false, Option, none, some, List, [], ◌∷◌, arith, if◌then◌else◌,
  Bool-cases, inl, inr,
}
use five_nines_echo.Control.{ControlMsg}
use five_nines_echo.Worker.Control.{
  Circumstance, Line, Then, Actions, AcceptorActions, Ended, UpgradeReq, react, acceptor_react,
  report, reload, acceptor_report, on_line, proceed, serve, run_control_client,
}

-- Nothing is asked; one thing is asked; or both.
abbrev pub asked : Bool → Option UpgradeReq → ℕ
asked false none = 0
asked true none = 1
asked false (some req) = 1
asked true (some req) = 2

abbrev is_some : Option ℕ → Bool
is_some none = false
is_some (some n) = true

module _ {A : Type 0} (count : A → ℕ) where
  -- The count after a message, by what is done next.
  abbrev Counts : Then A → Type 0
  Counts (Then.terminal a) = count a ≡ 1
  Counts (Then.leave a) = count a ≡ 0
  Counts (Then.go_on a) = count a ≡ 0

  abbrev pub Ends : Ended → A → Type 0
  Ends Ended.by_message a = count a ≡ 1
  Ends Ended.gave_up a = count a ≡ 0
  Ends Ended.running a = count a ≡ 0

module _ {A : Type 0} (on_message : ControlMsg → Circumstance → A → Then A) (count : A → ℕ)
    (rule : (msg : ControlMsg) (c : Circumstance) (a : A)
      → count a ≡ 0
      → Counts count (on_message msg c a)) where
  on_line-Counts : (l : Line) (a : A) → count a ≡ 0 → Counts count (on_line on_message l a)
  on_line-Counts Line.undecodable a z = z
  on_line-Counts Line.unknown a z = z
  on_line-Counts (Line.message msg c) a z = rule msg c a z

  abbrev CountsPair : A × Bool → Type 0
  CountsPair (a, ended) = count a ≡ (if ended then 1 else 0)

  proceed-Counts :
      (t : Then A) (next : A → A × Bool)
      → Counts count t
      → ((a : A) → count a ≡ 0 → CountsPair (next a))
      → CountsPair (proceed t next)
  proceed-Counts (Then.terminal a) next c k = c
  proceed-Counts (Then.leave a) next c k = c
  proceed-Counts (Then.go_on a) next c k = k a c

  serve-Counts : (ls : List Line) (a : A) → count a ≡ 0 → CountsPair (serve on_message ls a)
  unfolding serve
  serve-Counts [] a z = z
  serve-Counts (l ∷ ls) a z =
      proceed-Counts (on_line on_message l a) (λ a'. serve on_message ls a') (on_line-Counts l a z)
        (λ a' z'. serve-Counts ls a' z')

  run-Ends :
      (cs : List (Option (List Line))) (a : A)
      → count a ≡ 0
      → Ends count (run_control_client on_message cs a).1 (run_control_client on_message cs a).0
  unfolding run_control_client
  run-Ends [] a z = z
  run-Ends (none ∷ cs) a z = z
  run-Ends (some ls ∷ cs) a z = elim (Bool-cases (serve on_message ls a).1) [
    | inl e ↦ rw e (serve-Counts ls a z ∙ ap (λ b. if b then 1 else 0) e)
    | inr e ↦ rw e (
        run-Ends cs (serve on_message ls a).0
          (serve-Counts ls a z ∙ ap (λ b. if b then 1 else 0) e))
  ]

asked_shutdown : (b : Bool) (u : Option UpgradeReq) → asked b u ≡ 0 → asked true u ≡ 1
asked_shutdown false none z = refl
asked_shutdown true none z = absurd (omega arith)
asked_shutdown false (some r) z = absurd (omega arith)
asked_shutdown true (some r) z = absurd (omega arith)

asked_upgrade :
    (b : Bool) (u : Option UpgradeReq) (r : UpgradeReq) → asked b u ≡ 0 → asked b (some r) ≡ 1
asked_upgrade false none r z = refl
asked_upgrade true none r z = absurd (omega arith)
asked_upgrade false (some r') r z = absurd (omega arith)
asked_upgrade true (some r') r z = absurd (omega arith)

abbrev pub worker_count : Actions → ℕ
worker_count a = asked a.shutdown a.upgrade

abbrev pub acceptor_count : AcceptorActions → ℕ
acceptor_count a = asked (is_some a.shutdown) a.upgrade

report-Counts :
    (written : Bool) (a : Actions) → worker_count a ≡ 0 → Counts worker_count (report written a)
report-Counts true a z = z
report-Counts false a z = z

reload-kept :
    (effective : ℕ) (uids : Option (List ℕ)) (a : Actions)
    → worker_count (reload effective uids a) ≡ worker_count a
reload-kept effective none a = refl
reload-kept effective (some uids) a = refl

react-Counts :
    (effective : ℕ) (msg : ControlMsg) (c : Circumstance) (a : Actions)
    → worker_count a ≡ 0
    → Counts worker_count (react effective msg c a)
react-Counts effective (ControlMsg.shutdown grace_ms) c a z = asked_shutdown a.shutdown a.upgrade z
react-Counts effective (ControlMsg.upgrade p t k r) c a z = asked_upgrade a.shutdown a.upgrade _ z
react-Counts effective ControlMsg.status c a z = report-Counts c.written a z
react-Counts effective ControlMsg.drain c a z = z
react-Counts effective ControlMsg.reload c a z = reload-kept effective c.configured_uids a ∙ z

acceptor_report-Counts :
    (written : Bool) (a : AcceptorActions)
    → acceptor_count a ≡ 0
    → Counts acceptor_count (acceptor_report written a)
acceptor_report-Counts true a z = z
acceptor_report-Counts false a z = z

acceptor_react-Counts :
    (msg : ControlMsg) (c : Circumstance) (a : AcceptorActions)
    → acceptor_count a ≡ 0
    → Counts acceptor_count (acceptor_react msg c a)
acceptor_react-Counts (ControlMsg.shutdown grace_ms) c a z =
    asked_shutdown (is_some a.shutdown) a.upgrade z
acceptor_react-Counts (ControlMsg.upgrade p t k r) c a z =
    asked_upgrade (is_some a.shutdown) a.upgrade _ z
acceptor_react-Counts ControlMsg.status c a z = acceptor_report-Counts c.written a z
acceptor_react-Counts ControlMsg.drain c a z = z
acceptor_react-Counts ControlMsg.reload c a z = z

-- A worker that nothing was asked of yet: however its connections to the supervisor come and go and
-- whatever lines they carry, its control client ends by a message exactly when one of shutdown and
-- upgrade has been asked of it, and then only that one; while it runs, and where it gives up since
-- the supervisor is not to be reached, neither has been asked.
pub run_control_client-Once :
    (effective : ℕ) (cs : List (Option (List Line))) (a : Actions) (b : AcceptorActions)
    → worker_count a ≡ 0
    → acceptor_count b ≡ 0
    → let r = run_control_client (react effective) cs a in
      let r' = run_control_client acceptor_react cs b in
      Ends worker_count r.1 r.0 × Ends acceptor_count r'.1 r'.0
run_control_client-Once effective cs a b z z' = (
  run-Ends (react effective) worker_count (react-Counts effective) cs a z,
  run-Ends acceptor_react acceptor_count acceptor_react-Counts cs b z',
)
