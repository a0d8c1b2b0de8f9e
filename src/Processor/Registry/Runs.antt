-- ===== src/Processor/Registry/Runs.antt =====
-- processor.rs, processor/sidecar.rs and processor/upgrade.rs: everything that changes the registry of
-- sessions, in any order.
use five_nines_echo.Base.{
  ℕ, suc, ◌≡◌, String, string_key, nat_key, Bool, true, false, some, List, [], ◌∷◌, ◌++◌, map,
  lookup,
}
use five_nines_echo.Handoff.{SessionHandoff, Transport}
use five_nines_echo.Control.{SessionMetadata}
use five_nines_echo.Processor.Session.{Session, Origin}
use five_nines_echo.Processor.Registry.{
  SessionHandle, SessionRegistry, empty, register, end_session, flush_failed,
  store_metadata_if_session_active,
}
use five_nines_echo.Processor.Upgrade.{Answer, adopt_session, drain_session_handoffs}
use five_nines_echo.Processor.Registry.Tidy.{peer_of}

-- Whether a task is started for a handoff: it is of a Unix socket whose descriptor makes a stream.
abbrev pub is_taken : Transport → Bool → Bool
is_taken Transport.uds usable = usable
is_taken Transport.tcp usable = false

abbrev pub adopts : (ℕ → Bool) → SessionHandoff → Bool
adopts reconstruct h = is_taken h.transport (reconstruct h.uds_fd)

-- A registry after the start of `n` sessions, adopted ones among them. `gone` names the peers with a
-- session whose first flush failed or that was drained for an upgrade, or with one that could not be
-- adopted.
pub data Reach : ℕ → List String → SessionRegistry → Type 0 where
  start : Reach 0 [] empty
  registered :
      {n : ℕ} {gone : List String} {reg : SessionRegistry} (o : Origin) (s : Session)
      → Reach n gone reg
      → Reach (suc n) gone (register o s reg)
  ended :
      {n : ℕ} {gone : List String} {reg : SessionRegistry} (id : ℕ) (h : SessionHandle)
      → lookup id reg.sessions ≡ some h
      → Reach n gone reg
      → Reach n gone (end_session id h.peer reg)
  unflushed :
      {n : ℕ} {gone : List String} {reg : SessionRegistry} (id : ℕ) (h : SessionHandle)
      → lookup id reg.sessions ≡ some h
      → Reach n gone reg
      → Reach n (h.peer ∷ gone) (flush_failed id reg)
  published :
      {n : ℕ} {gone : List String} {reg : SessionRegistry} (meta : SessionMetadata)
      → Reach n gone reg
      → Reach n gone (store_metadata_if_session_active meta reg).0
  drained :
      {n : ℕ} {gone : List String} {reg : SessionRegistry} (answers : ℕ → Answer)
      → Reach n gone reg
      → Reach n (map peer_of reg.sessions ++ gone) (drain_session_handoffs answers reg).0
  adopted :
      {n : ℕ} {gone : List String} {reg : SessionRegistry} (reconstruct : ℕ → Bool)
      (h : SessionHandoff) (closed : List ℕ)
      → adopts reconstruct h ≡ true
      → Reach n gone reg
      → Reach
          (suc n)
          gone
          (adopt_session reconstruct h (record { registry = reg; closed = closed })).registry
  declined :
      {n : ℕ} {gone : List String} {reg : SessionRegistry} (reconstruct : ℕ → Bool)
      (h : SessionHandoff) (closed : List ℕ)
      → adopts reconstruct h ≡ false
      → Reach n gone reg
      → Reach n
          (h.peer ∷ gone)
          (adopt_session reconstruct h (record { registry = reg; closed = closed })).registry
