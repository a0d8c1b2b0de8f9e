-- ===== src/Processor/Upgrade.antt =====
-- processor/upgrade.rs: the upgrade of the processor, from the drain of its sessions to their adoption
-- by the new image, or by the old one after a rollback. What the operating system answers is in
-- `Answer` and `Attempt`, and serde is `Json`.
pub mod Attempt
pub mod Adopt
pub mod Drain
pub mod RoundTrip
pub mod Rollback
mod Tests
use five_nines_echo.Base.{
  ℕ, String, string_key, Bool, true, false, Option, none, some, List, [], ◌∷◌, ◌++◌, insert, lookup,
  keep,
}
use five_nines_echo.Control.{SessionMetadata}
use five_nines_echo.Fault.{InjectedFault}
use five_nines_echo.Handoff.{SessionHandoff, Transport, is_schema_compatible}
use five_nines_echo.Processor.Session.{Origin, Session, spawn_session}
use five_nines_echo.Processor.Registry.{SessionHandle, SessionRegistry, register}

-- serde_json on lists of handoffs.
pub record Json : Type 0 where
  pub to_string : List SessionHandoff → Option String
  pub from_str : String → Option (List SessionHandoff)

pub data HandoffSessionsSource : Type 0 where
  fd env : HandoffSessionsSource

pub record HandoffSessionsPayload : Type 0 where
  pub json : String
  pub source : HandoffSessionsSource

-- What `env::var` gives.
pub data EnvVar : Type 0 where
  present : String → EnvVar
  not_present : EnvVar
  not_unicode : EnvVar

-- The successor's environment: the two variables, the number that a text stands for, and what a
-- descriptor can be read to.
pub record Inherited : Type 0 where
  pub sessions_fd : EnvVar
  pub sessions : EnvVar
  pub parse : String → Option ℕ
  pub read : ℕ → Option String

pub data AdoptError : Type 0 where
  parse_fd read_fd unreadable_env bad_json : AdoptError

pub data Result (A : Type 0) : Type 0 where
  ok : A → Result A
  err : AdoptError → Result A

abbrev payload_of_env : EnvVar → Option HandoffSessionsPayload
payload_of_env (EnvVar.present json) =
    some (record { json = json; source = HandoffSessionsSource.env })
payload_of_env EnvVar.not_present = none
payload_of_env EnvVar.not_unicode = none

abbrev payload_of_pipe : Option String → Result (Option HandoffSessionsPayload)
payload_of_pipe none = Result.err AdoptError.read_fd
payload_of_pipe (some json) =
    Result.ok (some (record { json = json; source = HandoffSessionsSource.fd }))

abbrev payload_of_fd : Inherited → Option ℕ → Result (Option HandoffSessionsPayload)
payload_of_fd i none = Result.err AdoptError.parse_fd
payload_of_fd i (some n) = payload_of_pipe (i.read n)

abbrev payload_of : Inherited → EnvVar → Result (Option HandoffSessionsPayload)
payload_of i (EnvVar.present fd_str) = payload_of_fd i (i.parse fd_str)
payload_of i EnvVar.not_present = Result.ok (payload_of_env i.sessions)
payload_of i EnvVar.not_unicode = Result.err AdoptError.unreadable_env

unfoldable pub read_handoff_sessions_json : Inherited → Result (Option HandoffSessionsPayload)
read_handoff_sessions_json i = payload_of i i.sessions_fd

abbrev parsed :
    HandoffSessionsSource → Option (List SessionHandoff) → Result (Option (List SessionHandoff))
parsed source (some handoffs) = Result.ok (some handoffs)
parsed HandoffSessionsSource.fd none = Result.err AdoptError.bad_json
parsed HandoffSessionsSource.env none = Result.ok none

module _ (json : Json) where
  unfoldable pub parse_handoff_sessions_payload :
      HandoffSessionsPayload → Result (Option (List SessionHandoff))
  parse_handoff_sessions_payload payload = parsed payload.source (json.from_str payload.json)

-- A registry that takes sessions over, and the descriptors that were closed.
pub record Adoption : Type 0 where
  pub registry : SessionRegistry
  pub closed : List ℕ

abbrev pub reinstate :
    SessionHandoff
    → Option String
    → List (String × SessionMetadata)
    → List (String × SessionMetadata)
reinstate h none metadata = metadata
reinstate h (some ident) metadata =
    insert h.peer (record { peer = h.peer; ident = some ident; trace_id = h.trace_id }) metadata

abbrev pub origin_of : SessionHandoff → Origin
origin_of h = record {
  fd = h.uds_fd;
  peer = h.peer;
  connected_at_unix_ms = h.connected_at_unix_ms;
  trace_id = h.trace_id;
}

abbrev pub session_of : SessionHandoff → Session
session_of h = spawn_session h.partial_line_bytes h.pending_write_bytes h.lines_echoed

-- `reconstruct_uds` owns the descriptor and closes it where it fails; then the caller closes it.
abbrev pub take_over : SessionHandoff → Transport → Bool → Adoption → Adoption
take_over h Transport.uds true a = record a {
  registry = register (origin_of h) (session_of h) a.registry;
}
take_over h Transport.uds false a = record a { closed = a.closed ++ h.uds_fd ∷ h.uds_fd ∷ [] }
take_over h Transport.tcp usable a = record a { closed = a.closed ++ h.uds_fd ∷ [] }

-- `reconstruct` is whether `reconstruct_uds` makes a stream of the descriptor.
module _ (reconstruct : ℕ → Bool) where
  unfoldable pub adopt_session : SessionHandoff → Adoption → Adoption
  adopt_session h a = take_over h h.transport (reconstruct h.uds_fd) (record a {
    registry = record a.registry { metadata = reinstate h h.ident a.registry.metadata };
  })

  unfoldable pub readopt_sessions : List SessionHandoff → Adoption → Adoption
  readopt_sessions [] a = a
  readopt_sessions (h ∷ hs) a = readopt_sessions hs (adopt_session h a)

abbrev pub is_adoptable : SessionHandoff → Bool
is_adoptable h = is_schema_compatible h.version

module _ (json : Json) (reconstruct : ℕ → Bool) where
  abbrev adopt_parsed : Result (Option (List SessionHandoff)) → Adoption → Result Adoption
  adopt_parsed (Result.err e) a = Result.err e
  adopt_parsed (Result.ok none) a = Result.ok a
  adopt_parsed (Result.ok (some handoffs)) a =
      Result.ok (readopt_sessions reconstruct (keep is_adoptable handoffs) a)

  abbrev adopt_payload : Result (Option HandoffSessionsPayload) → Adoption → Result Adoption
  adopt_payload (Result.err e) a = Result.err e
  adopt_payload (Result.ok none) a = Result.ok a
  adopt_payload (Result.ok (some payload)) a =
      adopt_parsed (parse_handoff_sessions_payload json payload) a

  unfoldable pub adopt_inflight_sessions : Inherited → Adoption → Result Adoption
  adopt_inflight_sessions i a = adopt_payload (read_handoff_sessions_json i) a

abbrev with_ident : Option SessionMetadata → SessionHandoff → SessionHandoff
with_ident none h = h
with_ident (some meta) h = record h { ident = meta.ident }

unfoldable pub enrich_handoff : SessionHandoff → List (String × SessionMetadata) → SessionHandoff
enrich_handoff h metadata_snapshot = with_ident (lookup h.peer metadata_snapshot) h

-- What the drain meets at one session: a fault that is injected, what its task hands over, if anything,
-- and whether the descriptor's CLOEXEC can be cleared.
pub record Answer : Type 0 where
  pub fault : Option InjectedFault
  pub handoff : Option SessionHandoff
  pub cleared : Bool

abbrev pub Awaited : Type 0
Awaited = Option SessionHandoff × List ℕ

abbrev skip_handoff : Option SessionHandoff → Awaited
skip_handoff none = (none, [])
skip_handoff (some h) = (none, h.uds_fd ∷ [])

abbrev inherit : Option SessionHandoff → Bool → Awaited
inherit none cleared = (none, [])
inherit (some h) true = (some h, [])
inherit (some h) false = (none, h.uds_fd ∷ [])

-- A fault other than a skip is a delay.
abbrev await_answer : Option InjectedFault → Answer → Awaited
await_answer (some InjectedFault.skip) a = skip_handoff a.handoff
await_answer (some (InjectedFault.io_error message)) a = inherit a.handoff a.cleared
await_answer (some (InjectedFault.panic message)) a = inherit a.handoff a.cleared
await_answer none a = inherit a.handoff a.cleared

unfoldable pub await_session_handoff : Answer → Awaited
await_session_handoff a = await_answer a.fault a

pub record Drained : Type 0 where
  pub handoffs : List SessionHandoff
  pub closed : List ℕ

abbrev collect : List (String × SessionMetadata) → Awaited → Drained → Drained
collect metadata (none, fds) d = record { handoffs = d.handoffs; closed = fds ++ d.closed }
collect metadata (some h, fds) d = record {
  handoffs = enrich_handoff h metadata ∷ d.handoffs;
  closed = fds ++ d.closed;
}

module _ (answers : ℕ → Answer) where
  unfoldable pub drain_each : List (String × SessionMetadata) → List (ℕ × SessionHandle) → Drained
  drain_each metadata [] = record { handoffs = []; closed = [] }
  drain_each metadata (entry ∷ sessions) =
      collect metadata (await_session_handoff (answers entry.0)) (drain_each metadata sessions)

  -- The sessions are taken out of the registry, and the metadata stay.
  unfoldable pub drain_session_handoffs : SessionRegistry → SessionRegistry × Drained
  drain_session_handoffs reg = (record reg { sessions = [] }, drain_each reg.metadata reg.sessions)
