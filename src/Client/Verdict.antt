-- ===== src/Client/Verdict.antt =====
-- admin.rs and supervisor/admin.rs: what the admin is told of a rolling upgrade.
use mathlib.Core.List.{map-append, append_assoc}
use mathlib.Core.Bool.{and_assoc, and-true}
use five_nines_echo.Base.{
  ℕ, ◌^◌, ◌<◌, String, ◌≡◌, refl, sym, ap, subst, ◌∙◌, Bool, true, false, ◌&&◌, Option, none, some,
  List, [], ◌∷◌, ◌++◌, map, if◌then◌else◌,
}
use five_nines_echo.Control.{AdminResp, WorkerStatus}
use five_nines_echo.Metrics.{UpgradeCounters}
use five_nines_echo.Upgrade.{
  RollingUpgradeRequest, RoleRun, Progress, Awaited, Observed, rolling_upgrade, walk, and_then,
  upgrade_one, canary_observe, upgrade_role, canary_part, after_query, after_await, after_observe,
  completed, on_targets, targets,
}
use five_nines_echo.Admin.{World, AdminState, handle_admin_request}
use five_nines_echo.Client.Flags.{IsWord, args_of, parse_flags-args_of}
use five_nines_echo.Client.{on_parsed, Line, Outcome, Supervisor, stream_upgrade, run_upgrade}

-- The lines that carry the answers.
abbrev pub lines_of : List AdminResp → List Line
lines_of rs = map (λ (r : AdminResp). Line.answer r) rs

-- Lines that only say how the walk goes on: the client reads past them, and knows then whether a step
-- failed.
abbrev Reports : List AdminResp → Bool → Type 0
Reports rs good =
    (ok : Bool) (rest : List Line)
    → stream_upgrade ok (lines_of rs ++ rest) ≡ stream_upgrade (ok && good) rest

Reports-append :
    (rs ss : List AdminResp) (a b : Bool)
    → Reports rs a
    → Reports ss b
    → Reports (rs ++ ss) (a && b)
Reports-append rs ss a b h k ok rest =
    ap (λ l. stream_upgrade ok (l ++ rest)) (map-append (λ (r : AdminResp). Line.answer r) rs ss)
    ∙ ap (stream_upgrade ok) (append_assoc (lines_of rs) (lines_of ss) rest)
    ∙ h ok (lines_of ss ++ rest)
    ∙ k (ok && a) rest
    ∙ ap (λ g. stream_upgrade g rest) (and_assoc ok a b)

-- A part of the walk with a result has reported a step that failed exactly if the result is a failure.
abbrev Tells : Progress → Type 0
Tells p = (b : Bool) → p.ok ≡ some b → Reports p.notices b

Tells-at : (b : Bool) (p : Progress) → p.ok ≡ some b → Reports p.notices b → Tells p
Tells-at b p e h b' e' = let same : b ≡ b' = cc in subst (λ g. Reports p.notices g) same h

some-inj : {a b : Bool} → some a ≡ some b → a ≡ b
some-inj e = cc

silent : Reports [] true
silent ok rest = ap (λ g. stream_upgrade g rest) (sym (and-true ok))

after_await-Tells :
    (role : String) (path : Option String) (pre_gen : ℕ) (c : UpgradeCounters) (a : Option Awaited)
    → Tells (after_await role path pre_gen c a)
unfolding stream_upgrade
after_await-Tells role path pre_gen c none b e = cc
after_await-Tells role path pre_gen c (some Awaited.timed_out) b e =
    Tells-at false (after_await role path pre_gen c (some Awaited.timed_out)) refl
      (λ ok rest. ap (λ g. stream_upgrade (g && false) rest) (and-true ok)) b e
after_await-Tells role path pre_gen c (some (Awaited.done g)) b e =
    Tells-at true (after_await role path pre_gen c (some (Awaited.done g))) refl
      (λ ok rest. ap (λ g'. stream_upgrade (g' && true) rest) (and-true ok)) b e

after_query-Tells :
    (role : String) (path : Option String) (run : RoleRun) (c : UpgradeCounters)
    (pre : Option WorkerStatus)
    → Tells (after_query role path run c pre)
unfolding stream_upgrade
after_query-Tells role path run c none b e =
    Tells-at false (after_query role path run c none) refl (λ ok rest. refl) b e
after_query-Tells role path run c (some pre) b e =
    after_await-Tells role path pre.generation c _ b e

after_observe-Tells :
    (role : String) (c : UpgradeCounters) (o : Option Observed) → Tells (after_observe role c o)
unfolding stream_upgrade
after_observe-Tells role c none b e = cc
after_observe-Tells role c (some Observed.clean) b e =
    Tells-at true (after_observe role c (some Observed.clean)) refl silent b e
after_observe-Tells role c (some (Observed.regressed state)) b e =
    Tells-at false (after_observe role c (some (Observed.regressed state))) refl (λ ok rest. refl) b
      e

canary_part-Tells :
    (role : String) (secs : Option ℕ) (run : RoleRun) (c : UpgradeCounters)
    → Tells (canary_part role secs run c)
unfolding canary_observe
canary_part-Tells role none run c b e = Tells-at true (canary_part role none run c) refl silent b e
canary_part-Tells role (some secs) run c b e = after_observe-Tells role c _ b e

progress : Option Bool → UpgradeCounters → List AdminResp → List (String × Option String) → Progress
progress ok c n s = record { ok = ok; counters = c; notices = n; sent = s }

and_then-Tells :
    (ok : Option Bool) (c : UpgradeCounters) (n : List AdminResp)
    (s : List (String × Option String)) (next : UpgradeCounters → Progress)
    → Tells (progress ok c n s)
    → ((c' : UpgradeCounters) → Tells (next c'))
    → Tells (and_then (progress ok c n s) next)
unfolding progress
and_then-Tells none c n s next h k b e = cc
and_then-Tells (some false) c n s next h k b e = h b e
and_then-Tells (some true) c n s next h k b e =
    Reports-append n (next c).notices true b (h true refl) (k c b e)

walk-Tells :
    (req : RollingUpgradeRequest) (runs : String → RoleRun) (roles : List String)
    (c : UpgradeCounters)
    → Tells (walk req runs roles c)
unfolding walk upgrade_one progress
walk-Tells req runs [] c b e = Tells-at true (walk req runs [] c) refl silent b e
walk-Tells req runs (role ∷ roles) c b e =
    let one = upgrade_one role req.binary_path (runs role) c in
    let both = upgrade_role role req (runs role) c in
    and_then-Tells both.ok both.counters both.notices both.sent (λ c'. walk req runs roles c')
      (and_then-Tells one.ok one.counters one.notices one.sent
        (λ c'. canary_part role req.canary_secs (runs role) c')
        (after_query-Tells role req.binary_path (runs role) c (runs role).pre)
        (λ c'. canary_part-Tells role req.canary_secs (runs role) c'))
      (λ c'. walk-Tells req runs roles c') b e

abbrev pub verdict : Bool → Outcome
verdict b = if b then Outcome.done else Outcome.upgrade_failed

completed-told :
    (ok : Option Bool) (c : UpgradeCounters) (n : List AdminResp)
    (s : List (String × Option String)) (b : Bool)
    → Tells (progress ok c n s)
    → (completed (progress ok c n s)).ok ≡ some b
    → stream_upgrade true (lines_of (completed (progress ok c n s)).notices) ≡ some (verdict b)
unfolding progress stream_upgrade
completed-told none c n s b h e = cc
completed-told (some true) c n s b h e =
    ap (stream_upgrade true) (map-append (λ (r : AdminResp). Line.answer r) n _)
    ∙ h true refl true (Line.answer (AdminResp.upgrade_complete true) ∷ [])
    ∙ ap (λ g. some (verdict g)) (some-inj e)
completed-told (some false) c n s b h e =
    ap (stream_upgrade true) (map-append (λ (r : AdminResp). Line.answer r) n _)
    ∙ h false refl true (Line.answer (AdminResp.upgrade_complete false) ∷ [])
    ∙ ap (λ g. some (verdict g)) (some-inj e)

on_targets-told :
    (req : RollingUpgradeRequest) (runs : String → RoleRun) (c : UpgradeCounters)
    (roles : Option (List String)) (b : Bool)
    → (on_targets req runs c roles).ok ≡ some b
    → stream_upgrade true (lines_of (on_targets req runs c roles).notices) ≡ some (verdict b)
unfolding stream_upgrade progress
on_targets-told req runs c none b e = ap (λ g. some (verdict g)) (some-inj e)
on_targets-told req runs c (some roles) b e =
    let w = walk req runs roles c in
    completed-told w.ok w.counters w.notices w.sent b (walk-Tells req runs roles c) e

rolling_upgrade-told :
    (locked : Bool) (req : RollingUpgradeRequest) (runs : String → RoleRun) (c : UpgradeCounters)
    (b : Bool)
    → (rolling_upgrade locked req runs c).ok ≡ some b
    → stream_upgrade true (lines_of (rolling_upgrade locked req runs c).notices) ≡ some (verdict b)
unfolding rolling_upgrade stream_upgrade
rolling_upgrade-told true req runs c b e = ap (λ g. some (verdict g)) (some-inj e)
rolling_upgrade-told false req runs c b e = on_targets-told req runs c (targets req) b e

-- The supervisor's answers to a message, as the lines that reach the client.
abbrev pub serving : World → AdminState → Supervisor
serving w s msg = some (lines_of (handle_admin_request w s msg).responses)

-- Whoever types the arguments of a request, at a supervisor that serves it and whose rolling upgrade
-- comes to a result, is told that the upgrade is done if the result is a success, and that it failed if
-- it is a failure, also where another rolling upgrade holds the lock or no worker has the role. The
-- seconds of the canary are below 2^64, and such a number has to be read back as it is printed.
pub run_upgrade-told :
    (print : ℕ → String) (parse : String → Option ℕ)
    → ((n : ℕ) → n < 2 ^ 64 → parse (print n) ≡ some n)
    → (w : World) (s : AdminState) (r : RollingUpgradeRequest) (b : Bool) → IsWord r.canary_secs
    → (rolling_upgrade s.upgrade_lock r w.runs s.upgrade_counters).ok ≡ some b
    → run_upgrade parse (serving w s) (args_of print r) ≡ some (verdict b)
unfolding run_upgrade handle_admin_request
run_upgrade-told print parse law w s r b word e =
    ap (on_parsed (serving w s)) (parse_flags-args_of print parse law r word)
    ∙ rolling_upgrade-told s.upgrade_lock r w.runs s.upgrade_counters b e
