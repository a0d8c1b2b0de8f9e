-- ===== src/Scanner.antt =====
-- scanner.rs and its folder: the worker that asks an accepted client's host who the client is, and
-- publishes the answer to the processor.
pub mod Peer
pub mod Requests
mod Tests
use Prim.Native.String.{◌++◌ as append}
use five_nines_echo.Base.{
  ℕ, suc, ◌+◌, ◌<◌, String, Bool, true, false, Option, none, some, List, [], ◌∷◌, ◌++◌, nat_key,
  insert, remove, length, if◌then◌else◌, ltb, nat_beq,
}
use five_nines_echo.Base.Words.{from_secs, u64}
use five_nines_echo.Control.{SessionMetadata}

-- `ScanRequest::SessionObserved`
pub record ScanRequest : Type 0 where
  pub client_ip : String
  pub client_port : ℕ
  pub server_port : ℕ
  pub role : String
  pub trace_id : String

-- A `HashSet` of ids is a map to nothing.
pub record ScannerRegistry : Type 0 where
  pub next_id : ℕ
  pub in_flight : List (ℕ × Unit {0})

abbrev pub empty : ScannerRegistry
empty = record { next_id = 0; in_flight = [] }

-- What the first read of a request's connection gives, with what serde makes of a line.
pub data FirstFrame : Type 0 where
  line : Option ScanRequest → FirstFrame
  decode_error closed : FirstFrame

-- A request gets the next id, which it returns.
unfoldable pub begin_request : ScannerRegistry → ScannerRegistry × ℕ
begin_request r = (
  record { next_id = u64 (r.next_id + 1); in_flight = insert r.next_id tt r.in_flight },
  r.next_id,
)

unfoldable pub end_request : ℕ → ScannerRegistry → ScannerRegistry
end_request id r = record r { in_flight = remove id r.in_flight }

-- `spawn_request` up to the probe: only a line that serde reads becomes a request.
abbrev pub on_first_frame :
    FirstFrame → ScannerRegistry → ScannerRegistry × Option (ℕ × ScanRequest)
on_first_frame (FirstFrame.line (some req)) r =
    ((begin_request r).0, some ((begin_request r).1, req))
on_first_frame (FirstFrame.line none) r = (r, none)
on_first_frame FirstFrame.decode_error r = (r, none)
on_first_frame FirstFrame.closed r = (r, none)

-- A step of the exchange with identd: it is done in time, fails, or runs out of time.
pub data Timed (A : Type 0) : Type 0 where
  done : A → Timed A
  failed : Timed A
  timed_out : Timed A

module _ (print : ℕ → String) where
  abbrev pub ident_addr : String → ℕ → String
  ident_addr client_ip identd_port = append client_ip (append ":" (print identd_port))

  abbrev pub ident_query : ℕ → ℕ → String
  ident_query client_port server_port =
      append (print client_port) (append "," (append (print server_port) "\r\n"))

  abbrev pub peer_of : ScanRequest → String
  peer_of req = append req.client_ip (append ":" (print req.client_port))

-- The answer that is read, `none` for no byte, a failed read being the same; `trim` cuts the white space
-- off it and replaces what is no UTF-8.
abbrev answer_of : (String → String) → Timed (Option String) → Option String
answer_of trim (Timed.done none) = none
answer_of trim (Timed.done (some text)) = some (trim text)
answer_of trim Timed.failed = none
answer_of trim Timed.timed_out = none

abbrev pub ident_exchange :
    (String → String) → Timed (Unit {0}) → Timed (Option String) → Option String
ident_exchange trim (Timed.done u) read = answer_of trim read
ident_exchange trim Timed.failed read = none
ident_exchange trim Timed.timed_out read = none

-- What the probe of one request meets.
pub record Probe : Type 0 where
  pub dial : Timed (Unit {0})
  pub write : Timed (Unit {0})
  pub read : Timed (Option String)

abbrev on_dial : (String → String) → Timed (Unit {0}) → Probe → Option String
on_dial trim (Timed.done u) p = ident_exchange trim p.write p.read
on_dial trim Timed.failed p = none
on_dial trim Timed.timed_out p = none

unfoldable pub ident_lookup : (String → String) → Probe → Option String
ident_lookup trim p = on_dial trim p.dial p

-- What a request publishes.
abbrev pub metadata_of : (ℕ → String) → ScanRequest → Option String → SessionMetadata
metadata_of print req ident = record {
  peer = peer_of print req;
  ident = ident;
  trace_id = req.trace_id;
}

-- The channel to the sidecar publisher, which holds so many frames.
abbrev pub channel_bound : ℕ
channel_bound = 256

abbrev pub Channel : Type 0
Channel = List SessionMetadata

-- `try_send`: a full or a closed channel loses the frame.
unfoldable pub try_send : Bool → SessionMetadata → Channel → Channel
try_send gone meta ch =
    if gone then ch else if ltb (length ch) channel_bound then ch ++ meta ∷ [] else ch

-- The rest of `spawn_request`, which other requests may come before.
abbrev pub finish_request :
    (ℕ → String)
    → (String → String)
    → Probe
    → Bool
    → ℕ
    → ScanRequest
    → ScannerRegistry × Channel
    → ScannerRegistry × Channel
finish_request print trim p gone id req (r, ch) =
    (end_request id r, try_send gone (metadata_of print req (ident_lookup trim p)) ch)

-- One frame at a time goes out on the connection. One that cannot be written is lost, and the publisher
-- connects again; `none` is a frame that serde cannot write.
pub data Sent : Type 0 where
  written unwritten unwritable : Sent

abbrev publish_one : SessionMetadata → Sent → List SessionMetadata → List SessionMetadata
publish_one meta Sent.written out = meta ∷ out
publish_one meta Sent.unwritten out = out
publish_one meta Sent.unwritable out = out

-- The frames that reach the processor, by how each write goes.
unfoldable pub run_sidecar_publisher : Channel → List Sent → List SessionMetadata
run_sidecar_publisher [] sends = []
run_sidecar_publisher (meta ∷ ch) [] = []
run_sidecar_publisher (meta ∷ ch) (s ∷ sends) = publish_one meta s (run_sidecar_publisher ch sends)

-- `do_upgrade`: the wait for the requests in flight, polled each 100 ms for at most a second. The list
-- gives, at each poll, the instant and how many are in flight; the result is how many are abandoned.
unfoldable pub drain_requests : ℕ → List (ℕ × ℕ) → Option ℕ
drain_requests deadline [] = none
drain_requests deadline ((now, count) ∷ polls) =
    let rest = drain_requests deadline polls in
    if nat_beq count 0 then some 0 else if ltb deadline now then some count else rest
