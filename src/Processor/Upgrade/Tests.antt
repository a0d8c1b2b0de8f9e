-- ===== src/Processor/Upgrade/Tests.antt =====
-- A processor with two sessions, one with half a line read and half an echo sent, that is upgraded.
use mathlib.Core.Logic.{ite, if_pos, if_neg}
use text.Mathlib.TextEquality.{eq_iff}
use native.Mathlib.Decide.{ℕ_discrete}
use five_nines_echo.Base.{
  ℕ, ◌≡◌, refl, String, Bool, true, false, none, some, List, [], ◌∷◌, ap, sym, map, ◌+◌, ◌==◌,
  string_key, nat_beq, if◌then◌else◌, Bool-cases, inl, inr, arith,
}
use five_nines_echo.Handoff.{SessionHandoff}
use five_nines_echo.Processor.Session.{Phase, Origin, spawn_session}
use five_nines_echo.Processor.Registry.{SessionHandle, SessionRegistry, empty, register}
use five_nines_echo.Processor.Upgrade.{
  Json, Adoption, Inherited, EnvVar, Result, Answer, adopt_inflight_sessions, readopt_sessions,
  drain_each, drain_session_handoffs, await_session_handoff, enrich_handoff,
}
use five_nines_echo.Processor.Upgrade.Attempt.{
  Attempt, Upgrade, Outcome, Successor, do_upgrade, finish_upgrade_attempt,
}
use five_nines_echo.Processor.Upgrade.Adopt.{numbered, doubled, kept, times, readopt_sessions-kept}
use five_nines_echo.Processor.Upgrade.Drain.{handed, handing, moved}
use five_nines_echo.Processor.Upgrade.RoundTrip.{IsJson, Inherits, do_upgrade-adopted}
use five_nines_echo.Processor.Upgrade.Rollback.{do_upgrade-rolled_back}

abbrev origin : ℕ → String → Origin
origin fd peer = record { fd = fd; peer = peer; connected_at_unix_ms = 5; trace_id = "t" }

abbrev busy : SessionHandle
busy = record {
  peer = "a";
  origin = origin 7 "a";
  session = record {
    read_buffer = 104 ∷ [];
    write_buffer = 105 ∷ 10 ∷ [];
    counter = 3;
    phase = Phase.sending;
  };
}

abbrev idle : SessionHandle
idle = record {
  peer = "b";
  origin = origin 8 "b";
  session = record { read_buffer = []; write_buffer = []; counter = 0; phase = Phase.waiting };
}

abbrev running : SessionRegistry
running = record {
  next_id = 6;
  sessions = (2, busy) ∷ (5, idle) ∷ [];
  metadata = ("a", record { peer = "a"; ident = some "root"; trace_id = "t" }) ∷ [];
}

abbrev both : List SessionHandoff
both = map (handed running.metadata) running.sessions

Discrete-String : Discrete String
Discrete-String s t = elim (Bool-cases (s == t)) [
  | inl e ↦ yes ((eq_iff s t).0 e)
  | inr e ↦ no (λ p. cc ((eq_iff s t).1 p))
]

handoffs-Discrete : Discrete (List SessionHandoff)
handoffs-Discrete = hlevel (ℕ_discrete, Discrete-String)

-- serde on this one list.
abbrev json : Json
json = record {
  to_string = λ hs. ite (handoffs-Discrete hs both) (some "both") none;
  from_str = λ text. some both;
}

json-both : json.to_string both ≡ some "both"
json-both = if_pos (handoffs-Discrete both both) refl (some "both") none

json-IsJson : IsJson json
json-IsJson = record {
  from_str-to_string = λ hs text e. elim (handoffs-Discrete hs both) [
    | yes same ↦ ap (λ l. some l) (sym same)
    | no other ↦
        let nothing : json.to_string hs ≡ none =
          if_neg (handoffs-Discrete hs both) other (some "both") none in
        cc (nothing, e)
  ];
}

abbrev answers : ℕ → Answer
answers id = if nat_beq id 2 then handing busy else handing idle

-- A session that is dispatched during the attempt.
abbrev late : Origin
late = origin 9 "c"

abbrev attempt : Bool → Attempt
attempt ready = record {
  listener_fd = 3;
  prepared = true;
  answers = answers;
  ready_pipe = some 12;
  sessions_pipe = some 11;
  is_static = true;
  spawned = true;
  ready = ready;
  restored = true;
  piped = true;
  reconstruct = λ fd. true;
  meanwhile = register late (spawn_session [] [] 0);
}

abbrev upgrade : Upgrade
upgrade = record { generation = 4; binary_path = none; self_path = "echod" }

abbrev successor : Successor
successor = record {
  exe = "echod";
  listener_fd = 3;
  sessions_fd = 11;
  generation = 5;
  ready_fd = 12;
  sessions_json = "both";
}

abbrev inherited : Inherited
inherited = record {
  sessions_fd = EnvVar.present "11";
  sessions = EnvVar.not_present;
  parse = λ s. some 11;
  read = λ fd. some "both";
}

successor-Inherits : Inherits inherited successor
successor-Inherits = record { variable = "11"; named = refl; number = refl; content = refl }

upgrade-exited : do_upgrade json (attempt true) upgrade running ≡ Outcome.exited 23 successor
unfolding do_upgrade drain_session_handoffs finish_upgrade_attempt drain_each await_session_handoff
    enrich_handoff
upgrade-exited = rw json-both refl

do_upgrade-adopted_example :
    (a : Adoption) × (adopt_inflight_sessions json
        (λ fd. true)
        inherited
        (record { registry = empty; closed = [] })
      ≡ Result.ok a)
    × (a.registry.sessions ≡ numbered 0 (moved (2, busy) ∷ moved (5, idle) ∷ []))
    × (a.closed ≡ [])
do_upgrade-adopted_example =
    do_upgrade-adopted json json-IsJson (λ fd. true) (attempt true) upgrade running inherited
      upgrade-exited (refl, (refl, tt)) (refl, (refl, tt)) (omega arith) successor-Inherits

abbrev late_handle : SessionHandle
late_handle = record { peer = "c"; origin = late; session = spawn_session [] [] 0 }

do_upgrade-rolled_back_example :
    (a : Adoption) × (do_upgrade json (attempt false) upgrade running ≡ Outcome.rolled_back a)
    × (a.registry.sessions ≡ (6, late_handle) ∷ (7, moved (2, busy)) ∷ (8, moved (5, idle)) ∷ [])
    × (a.closed ≡ [])
unfolding register
do_upgrade-rolled_back_example =
    do_upgrade-rolled_back json (attempt false) upgrade running refl refl (rw json-both refl)
      (refl, (refl, tt)) (refl, (refl, tt)) (omega arith, tt) (omega arith)

-- One descriptor makes a stream, and the other does not.
abbrev picky : ℕ → Bool
picky fd = nat_beq fd 7

readopt_sessions-kept_example :
    kept 8 (readopt_sessions picky both (record { registry = empty; closed = [] }))
    ≡ kept 8 (record { registry = empty; closed = [] })
      + times 8 (map (λ (h : SessionHandoff). h.uds_fd) both)
      + times 8 (doubled picky both)
readopt_sessions-kept_example =
    readopt_sessions-kept picky 8 both (record { registry = empty; closed = [] }) (omega arith) tt
