-- ===== src/Processor/Registry/Tests.antt =====
-- A registry in which two sessions of a peer start, the scanner publishes, and one ends.
use five_nines_echo.Base.{ℕ, true, none, some, []}
use five_nines_echo.Control.{SessionMetadata}
use five_nines_echo.Processor.Session.{Session, Origin, spawn_session}
use five_nines_echo.Processor.Registry.{
  SessionHandle, SessionRegistry, empty, register, end_session, store_metadata_if_session_active,
}
use five_nines_echo.Processor.Upgrade.{drain_session_handoffs}

abbrev origin : ℕ → Origin
origin fd = record { fd = fd; peer = "a"; connected_at_unix_ms = 0; trace_id = "t" }

abbrev first : Session
first = spawn_session [] [] 0

abbrev two : SessionRegistry
two = register (origin 8) first (register (origin 7) first empty)

abbrev known : SessionMetadata
known = record { peer = "a"; ident = some "root"; trace_id = "t" }

abbrev annotated : SessionRegistry
annotated = (store_metadata_if_session_active known two).0

abbrev handle : SessionHandle
handle = record { peer = "a"; origin = origin 7; session = first }

-- One of the two ends, and then the registry is drained.
abbrev left : SessionRegistry
left =
    (drain_session_handoffs (λ id. record { fault = none; handoff = none; cleared = true })
      (end_session 0 "a" annotated)).0
