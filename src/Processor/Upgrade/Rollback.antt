-- ===== src/Processor/Upgrade/Rollback.antt =====
-- processor/upgrade.rs, `finish_upgrade_attempt`: the rollback, and the attempts that fail outright.
use five_nines_echo.Base.{
  ℕ, String, ◌≡◌, sym, subst, length, length-map, ◌++◌, ap, ◌∙◌, Bool, true, false, ◌&&◌, Option,
  none, some, List, [], map, All, arith, if◌then◌else◌,
}
use five_nines_echo.Handoff.{SessionHandoff}
use five_nines_echo.Processor.Registry.{SessionRegistry}
use five_nines_echo.Processor.Upgrade.{
  Json, Adoption, readopt_sessions, drain_session_handoffs, drain_each,
}
use five_nines_echo.Processor.Upgrade.Attempt.{
  Attempt, Upgrade, Outcome, do_upgrade, finish_upgrade_attempt,
}
use five_nines_echo.Processor.Upgrade.Adopt.{HasIds, IsSound, numbered, readopt_sessions-sessions}
use five_nines_echo.Processor.Upgrade.Drain.{
  Handed, IsOpen, handed, moved, drain_each-handed, handed-IsUsable, handed-revived,
}

abbrev is_some : Option ℕ → Bool
is_some none = false
is_some (some n) = true

abbrev is_written : Option String → Bool
is_written none = false
is_written (some s) = true

-- The path of another program needs no statically linked image.
abbrev may_start : Option String → Bool → Bool
may_start none static = static
may_start (some target) static = true

module _ (json : Json) (t : Attempt) where
  -- The child of the attempt is started.
  abbrev pub starts : Upgrade → List SessionHandoff → Bool
  starts u hs =
      t.prepared
      && is_some t.ready_pipe
      && is_written (json.to_string hs)
      && is_some t.sessions_pipe
      && may_start u.binary_path t.is_static
      && t.spawned

  abbrev pub readopted : SessionRegistry → Outcome
  readopted reg =
      let d = drain_each t.answers reg.metadata reg.sessions in
      Outcome.rolled_back (
        readopt_sessions t.reconstruct d.handoffs
          (record { registry = t.meanwhile (record reg { sessions = [] }); closed = d.closed }))

  -- An attempt whose child is not ready.
  do_upgrade-not_ready :
      (u : Upgrade) (reg : SessionRegistry)
      → t.ready ≡ false
      → do_upgrade json t u reg ≡ (
          if starts u (drain_each t.answers reg.metadata reg.sessions).handoffs && t.restored
          then readopted reg
          else Outcome.failed)
  unfolding do_upgrade drain_session_handoffs finish_upgrade_attempt
  do_upgrade-not_ready u reg e = ground arith

  -- Where all sessions hand over with no fault injected, the child is started and never becomes ready,
  -- the listener can be restored and every descriptor makes a stream, the attempt ends in a rollback.
  -- After it the registry holds what other tasks have registered since the drain, and after that exactly
  -- those sessions, in the order of the drain and under the next ids, each with its peer, descriptor,
  -- start, trace id, counter and both buffers. Of what the other tasks do, it is asked that each of
  -- their sessions has an id below the next one, and that ids below 2^64 are left for the drained.
  pub do_upgrade-rolled_back :
      (u : Upgrade) (reg : SessionRegistry)
      → t.ready ≡ false
      → t.restored ≡ true
      → starts u (map (handed reg.metadata) reg.sessions) ≡ true
      → All (Handed t.answers) reg.sessions
      → All (IsOpen t.reconstruct) reg.sessions
      → IsSound (t.meanwhile (record reg { sessions = [] }))
      → HasIds (length reg.sessions) (t.meanwhile (record reg { sessions = [] }))
      → (a : Adoption) × (do_upgrade json t u reg ≡ Outcome.rolled_back a)
        × (a.registry.sessions
            ≡ (t.meanwhile (record reg { sessions = [] })).sessions
              ++ numbered
                  (t.meanwhile (record reg { sessions = [] })).next_id
                  (map moved reg.sessions))
        × (a.closed ≡ [])
  do_upgrade-rolled_back u reg n r s handing open' sound ids =
      let hs : List SessionHandoff = map (handed reg.metadata) reg.sessions in
      let left : Adoption = record {
        registry = t.meanwhile (record reg { sessions = [] });
        closed = [];
      } in
      let d = drain_each-handed t.answers reg.metadata reg.sessions handing in
      let (taken, closed) =
        readopt_sessions-sessions t.reconstruct hs left
          (subst (λ k. HasIds k left.registry) (sym (length-map (handed reg.metadata) reg.sessions))
            ids)
          sound (handed-IsUsable t.reconstruct reg.metadata reg.sessions open') in
      (
        readopt_sessions t.reconstruct hs left,
        do_upgrade-not_ready u reg n ∙ rw (d, s, r),
        taken
            ∙ ap (λ l. left.registry.sessions ++ numbered left.registry.next_id l)
                (handed-revived t.reconstruct reg.metadata reg.sessions open'),
        closed,
      )
