-- ===== src/Processor/Upgrade/RoundTrip.antt =====
-- processor/upgrade.rs: from `do_upgrade` in the old image, over the pipe, to `adopt_inflight_sessions`
-- in the new one.
use five_nines_echo.Base.{
  ℕ, ◌^◌, ◌<◌, length, length-map, String, ◌≡◌, sym, ap, ◌∙◌, Bool, true, false, Option, none, some,
  List, [], map, All, keep, arith,
}
use five_nines_echo.Handoff.{SessionHandoff}
use five_nines_echo.Processor.Registry.{SessionRegistry, empty}
use five_nines_echo.Processor.Upgrade.{
  Json, Adoption, Drained, Inherited, EnvVar, Result, adopt_inflight_sessions,
  read_handoff_sessions_json, parse_handoff_sessions_payload, readopt_sessions, is_adoptable,
  drain_session_handoffs, drain_each,
}
use five_nines_echo.Processor.Upgrade.Attempt.{
  Attempt, Upgrade, Outcome, Successor, do_upgrade, finish_upgrade_attempt, open_pipes,
  require_static, prepare,
}
use five_nines_echo.Processor.Upgrade.Adopt.{numbered, readopt_sessions-sessions}
use five_nines_echo.Processor.Upgrade.Drain.{
  Handed, IsOpen, handed, moved, drain_each-handed, handed-IsUsable, handed-adoptable,
  handed-revived,
}

-- What serde writes it reads back.
pub record IsJson (json : Json) : Type 0 where
  pub from_str-to_string :
      (hs : List SessionHandoff) (text : String)
      → json.to_string hs ≡ some text
      → json.from_str text ≡ some hs

-- The successor's environment names the pipe, and the pipe holds what was written to it.
pub record Inherits (i : Inherited) (next : Successor) : Type 0 where
  pub variable : String
  pub named : i.sessions_fd ≡ EnvVar.present variable
  pub number : i.parse variable ≡ some next.sessions_fd
  pub content : i.read next.sessions_fd ≡ some next.sessions_json

module _ (t : Attempt) where
  require_static-exited :
      (u : Upgrade) (reg : SessionRegistry) (d : Drained) (next : Successor)
      (target : Option String) (static : Bool) {code : ℕ} {next' : Successor}
      → require_static t u reg d next target static ≡ Outcome.exited code next'
      → next ≡ next'
  unfolding finish_upgrade_attempt
  require_static-exited u reg d next none false e = cc
  require_static-exited u reg d next none true e = ground arith
  require_static-exited u reg d next (some target) static e = ground arith

  open_pipes-exited :
      (u : Upgrade) (reg : SessionRegistry) (d : Drained) (ready_fd : Option ℕ)
      (json : Option String) (sessions_fd : Option ℕ) {code : ℕ} {next : Successor}
      → open_pipes t u reg d ready_fd json sessions_fd ≡ Outcome.exited code next
      → json ≡ some next.sessions_json
  open_pipes-exited u reg d none json s e = cc
  open_pipes-exited u reg d (some r) none s e = cc
  open_pipes-exited u reg d (some r) (some j) none e = cc
  open_pipes-exited u reg d (some r) (some j) (some s) e =
      ap (λ (n : Successor). some n.sessions_json)
        (require_static-exited u reg d _ u.binary_path t.is_static e)

module _ (json : Json) (t : Attempt) where
  prepare-exited :
      (prepared : Bool) (u : Upgrade) (reg : SessionRegistry) {code : ℕ} {next : Successor}
      → prepare json t prepared u reg ≡ Outcome.exited code next
      → json.to_string (drain_each t.answers reg.metadata reg.sessions).handoffs
        ≡ some next.sessions_json
  unfolding drain_session_handoffs
  prepare-exited false u reg e = cc
  prepare-exited true u reg e = open_pipes-exited t u _ _ _ _ _ e

-- The new image reads from the pipe what the old one drained.
module _ (json : Json) (law : IsJson json) (reconstruct : ℕ → Bool) where
  adopt-pipe :
      (i : Inherited) (next : Successor) (hs : List SessionHandoff) (a : Adoption)
      → Inherits i next
      → json.to_string hs ≡ some next.sessions_json
      → adopt_inflight_sessions json reconstruct i a
        ≡ Result.ok (readopt_sessions reconstruct (keep is_adoptable hs) a)
  unfolding adopt_inflight_sessions read_handoff_sessions_json parse_handoff_sessions_payload
  adopt-pipe i next hs a h e =
      rw (h.named, h.number, h.content, law.from_str-to_string hs next.sessions_json e)

  -- Take a processor with fewer than 2^64 sessions, all of which hand over with no fault injected, and whose upgrade attempt
  -- ends in the exit of the old image. Where serde reads back what it writes, the new image's
  -- environment names the pipe, the pipe holds what the old image wrote and every descriptor makes a
  -- stream, the new image adopts without an error exactly those sessions, in the order of the drain and
  -- under new ids: the same peer, descriptor, start and trace id, the counter, the bytes that were read
  -- and not decoded, and those that were encoded and not sent. No descriptor is closed.
  pub do_upgrade-adopted :
      (t : Attempt) (u : Upgrade) (reg : SessionRegistry) (i : Inherited) {code : ℕ}
      {next : Successor}
      → do_upgrade json t u reg ≡ Outcome.exited code next
      → All (Handed t.answers) reg.sessions
      → All (IsOpen reconstruct) reg.sessions
      → length reg.sessions < 2 ^ 64
      → Inherits i next
      → (a : Adoption) × (adopt_inflight_sessions json reconstruct i
            (record { registry = empty; closed = [] })
          ≡ Result.ok a)
        × (a.registry.sessions ≡ numbered 0 (map moved reg.sessions))
        × (a.closed ≡ [])
  unfolding do_upgrade
  do_upgrade-adopted t u reg i {code} {next} e handing open' few h =
      let hs : List SessionHandoff = map (handed reg.metadata) reg.sessions in
      let fresh : Adoption = record { registry = empty; closed = [] } in
      let written : json.to_string hs ≡ some next.sessions_json =
        ap (λ (d : Drained). json.to_string d.handoffs)
          (sym (drain_each-handed t.answers reg.metadata reg.sessions handing))
        ∙ prepare-exited json t t.prepared u reg e in
      let (taken, closed) =
        readopt_sessions-sessions reconstruct hs fresh
          (omega (arith, few, length-map (handed reg.metadata) reg.sessions)) tt
          (handed-IsUsable reconstruct reg.metadata reg.sessions open') in
      (
        readopt_sessions reconstruct hs fresh,
        adopt-pipe i next hs fresh h written
            ∙ ap (λ l. Result.ok (readopt_sessions reconstruct l fresh))
                (handed-adoptable reconstruct reg.metadata reg.sessions open'),
        taken ∙ ap (numbered 0) (handed-revived reconstruct reg.metadata reg.sessions open'),
        closed,
      )
