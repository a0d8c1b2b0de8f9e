-- ===== src/Processor/Registry.antt =====
-- processor.rs and processor/sidecar.rs: the registry of live sessions, and the metadata that the scanner
-- publishes for them. The handle of a session holds two channels to its task; here the task itself
-- stands in the handle.
pub mod Tidy
pub mod Runs
mod Tests
use five_nines_echo.Base.{
  ℕ, suc, ◌+◌, String, string_key, nat_key, ◌==◌, Bool, true, false, Option, none, some, List, [],
  ◌∷◌, if◌then◌else◌, any, insert, remove, lookup,
}
use five_nines_echo.Base.Words.{u64}
use five_nines_echo.Control.{SessionMetadata, ProcessorPreamble}
use five_nines_echo.Handoff.{Bytes}
use five_nines_echo.Processor.Session.{Session, Origin, spawn_session}

pub record SessionHandle : Type 0 where
  pub peer : String
  pub origin : Origin
  pub session : Session

pub record SessionRegistry : Type 0 where
  pub next_id : ℕ
  pub sessions : List (ℕ × SessionHandle)
  pub metadata : List (String × SessionMetadata)

abbrev pub empty : SessionRegistry
empty = record { next_id = 0; sessions = []; metadata = [] }

abbrev pub is_of : String → ℕ × SessionHandle → Bool
is_of peer entry = entry.1.peer == peer

-- `sessions.values().any(|h| h.peer == peer)`
abbrev pub has_session : String → List (ℕ × SessionHandle) → Bool
has_session peer sessions = any (is_of peer) sessions

-- `spawn_session`: the next id, and the handle under it.
unfoldable pub register : Origin → Session → SessionRegistry → SessionRegistry
register o s reg = record {
  next_id = u64 (reg.next_id + 1);
  sessions = insert reg.next_id (record { peer = o.peer; origin = o; session = s }) reg.sessions;
  metadata = reg.metadata;
}

-- The end of an echo loop: the last session of a peer takes the peer's metadata with it.
unfoldable pub end_session : ℕ → String → SessionRegistry → SessionRegistry
end_session id peer reg =
    let left = remove id reg.sessions in
    record {
      next_id = reg.next_id;
      sessions = left;
      metadata = if has_session peer left then reg.metadata else remove peer reg.metadata;
    }

-- The end of a session whose first flush failed.
unfoldable pub flush_failed : ℕ → SessionRegistry → SessionRegistry
flush_failed id reg = record reg { sessions = remove id reg.sessions }

unfoldable pub store_metadata_if_session_active :
    SessionMetadata → SessionRegistry → SessionRegistry × Bool
store_metadata_if_session_active meta reg =
    if has_session meta.peer reg.sessions
    then (record reg { metadata = insert meta.peer meta reg.metadata }, true)
    else (reg, false)

-- What the first read of a connection gives.
pub data FirstFrame : Type 0 where
  line : String → FirstFrame
  decode_error : FirstFrame
  closed : FirstFrame

pub data Dispatched : Type 0 where
  dropped : Dispatched
  session : SessionRegistry → Dispatched
  sidecar : Dispatched

-- The descriptor of the connection and the clock's reading, of a session that starts.
pub record Arrival : Type 0 where
  pub fd : ℕ
  pub now : ℕ
  pub rest : Bytes

abbrev pub on_preamble : Arrival → SessionRegistry → Option ProcessorPreamble → Dispatched
on_preamble a reg none = Dispatched.dropped
on_preamble a reg (some ProcessorPreamble.sidecar) = Dispatched.sidecar
on_preamble a reg (some (ProcessorPreamble.session peer role trace_id)) = Dispatched.session (
    register (record { fd = a.fd; peer = peer; connected_at_unix_ms = a.now; trace_id = trace_id })
      (spawn_session a.rest [] 0) reg)

-- `from_str` is serde's; `faulted` is whether the fault point of the dispatch fires.
unfoldable pub dispatch_incoming :
    (String → Option ProcessorPreamble) → Bool → Arrival → FirstFrame → SessionRegistry → Dispatched
dispatch_incoming from_str true a first reg = Dispatched.dropped
dispatch_incoming from_str false a (FirstFrame.line l) reg = on_preamble a reg (from_str l)
dispatch_incoming from_str false a FirstFrame.decode_error reg = Dispatched.dropped
dispatch_incoming from_str false a FirstFrame.closed reg = Dispatched.dropped

-- What a sidecar reads, each line with the metadata that serde finds in it, if any.
pub data SidecarFrame : Type 0 where
  line : Option SessionMetadata → SidecarFrame
  decode_error : SidecarFrame

-- A line that is no metadata is skipped, and a frame that cannot be decoded ends the sidecar.
unfoldable pub run_sidecar : List SidecarFrame → SessionRegistry → SessionRegistry
run_sidecar [] reg = reg
run_sidecar (SidecarFrame.decode_error ∷ frames) reg = reg
run_sidecar (SidecarFrame.line none ∷ frames) reg = run_sidecar frames reg
run_sidecar (SidecarFrame.line (some meta) ∷ frames) reg =
    run_sidecar frames (store_metadata_if_session_active meta reg).0
