-- ===== src/Processor/Session.antt =====
-- processor.rs, `spawn_session` and `echo_loop`: the task of one session, and its hand-over to a task of
-- another image. A step is what happens between two points at which the task can wait.
pub mod Decoded
pub mod Lossless
pub mod Invisible
mod Tests
use five_nines_echo.Base.{
  ℕ, suc, ◌+◌, String, Bool, true, false, Option, none, some, List, [], ◌∷◌, ◌++◌, length, nat_beq,
  if◌then◌else◌, take, drop,
}
use five_nines_echo.Base.Words.{u64}
use five_nines_echo.Handoff.{Bytes, SessionHandoff, Transport, schema_version}
use five_nines_echo.Processor.Codec.{Frame, Codec}

-- Flushing what an adopted session was left; waiting for a frame; flushing an echo; ended.
pub data Phase : Type 0 where
  flushing waiting sending ended : Phase

pub record Session : Type 0 where
  pub read_buffer : Bytes
  pub write_buffer : Bytes
  pub counter : ℕ
  pub phase : Phase

-- What the session is known by.
pub record Origin : Type 0 where
  pub fd : ℕ
  pub peer : String
  pub connected_at_unix_ms : ℕ
  pub trace_id : String

-- The peer's side of the socket: all it has sent that was read, whether it sends no more, and all that
-- was written to it.
pub record Wire : Type 0 where
  pub received : Bytes
  pub eof : Bool
  pub sent : Bytes

abbrev first_phase : Bytes → Phase
first_phase [] = Phase.waiting
first_phase (b ∷ bs) = Phase.flushing

-- `spawn_session`, on the buffers of `framed_with_lookahead`.
abbrev pub spawn_session : Bytes → Bytes → ℕ → Session
spawn_session read_lookahead write_lookahead initial_count = record {
  read_buffer = read_lookahead;
  write_buffer = write_lookahead;
  counter = initial_count;
  phase = first_phase write_lookahead;
}

-- After a write: an echo that is out counts, the rest of an interrupted one does not.
abbrev flushed : Phase → Bytes → Session → Session
flushed Phase.sending [] s = record s {
  write_buffer = [];
  counter = u64 (s.counter + 1);
  phase = Phase.waiting;
}
flushed Phase.flushing [] s = record s { write_buffer = []; phase = Phase.waiting }
flushed Phase.waiting left s = s
flushed Phase.ended left s = s
flushed _ (b ∷ left) s = record s { write_buffer = b ∷ left }

abbrev is_writing : Phase → Bool
is_writing Phase.sending = true
is_writing Phase.flushing = true
is_writing _ = false

abbrev is_waiting : Phase → Bool
is_waiting Phase.waiting = true
is_waiting _ = false

-- Whether the task is in the `select!` that also listens for a cancel.
abbrev pub is_cancellable : Phase → Bool
is_cancellable Phase.waiting = true
is_cancellable Phase.sending = true
is_cancellable _ = false

-- A session in a task, or on its way to one.
pub data Stage : Type 0 where
  running : Session → Stage
  handed : SessionHandoff → Stage

pub record Life : Type 0 where
  pub wire : Wire
  pub stage : Stage
  -- how many hand-overs interrupted an echo
  pub interrupted : ℕ

pub data Event : Type 0 where
  -- bytes that the task reads from the socket
  received : Bytes → Event
  closed : Event
  -- the decoder is asked for a frame
  framed : Event
  -- so many bytes of the write buffer go out
  written : ℕ → Event
  write_failed : Event
  cancelled : Event
  -- the next image's task, or this one's after a rollback
  adopted : Event

module _ (C : Codec) where
  -- The frame that `Framed` gives: of the bytes read, and at the end of the stream of what is left.
  abbrev eof_frame : Bool → Bytes → Frame → Frame
  eof_frame true buf Frame.pending = C.decode_eof buf
  eof_frame eof buf f = f

  abbrev pub next_frame : Bool → Bytes → Frame
  next_frame eof buf = eof_frame eof buf (C.decode buf)

  abbrev pub on_frame : Bool → Frame → Session → Session
  on_frame eof (Frame.line l rest) s = record s {
    read_buffer = rest;
    write_buffer = s.write_buffer ++ C.encode l;
    phase = Phase.sending;
  }
  on_frame eof Frame.too_long s = record s { phase = Phase.ended }
  on_frame true Frame.pending s = record s { phase = Phase.ended }
  on_frame false Frame.pending s = s

module _ (o : Origin) where
  -- Both buffers of the codec, and what is known of the session.
  abbrev pub hand_over : Session → SessionHandoff
  hand_over s = record {
    uds_fd = o.fd;
    transport = Transport.uds;
    partial_line_bytes = s.read_buffer;
    pending_write_bytes = s.write_buffer;
    lines_echoed = s.counter;
    connected_at_unix_ms = o.connected_at_unix_ms;
    peer = o.peer;
    ident = none;
    trace_id = o.trace_id;
    version = schema_version;
  }

abbrev interrupts : Phase → ℕ
interrupts Phase.sending = 1
interrupts _ = 0

abbrev adopt_session : Life → SessionHandoff → Event → Life
adopt_session x h Event.adopted = record x {
  stage = Stage.running (spawn_session h.partial_line_bytes h.pending_write_bytes h.lines_echoed);
}
adopt_session x h Event.closed = record x {
  wire = record { received = x.wire.received; eof = true; sent = x.wire.sent };
}
adopt_session x h e = x

-- A session that `dispatch_incoming` starts: `preamble_rest` is what came with the preamble's line.
abbrev pub fresh : Bytes → Life
fresh preamble_rest = record {
  wire = record { received = preamble_rest; eof = false; sent = [] };
  stage = Stage.running (spawn_session preamble_rest [] 0);
  interrupted = 0;
}

module _ (C : Codec) (o : Origin) where
  abbrev run_session : Life → Session → Event → Life
  run_session x s (Event.received bytes) =
      if is_waiting s.phase
      then if x.wire.eof then x else record {
        wire = record { received = x.wire.received ++ bytes; eof = false; sent = x.wire.sent };
        stage = Stage.running (record s { read_buffer = s.read_buffer ++ bytes });
        interrupted = x.interrupted;
      }
      else x
  run_session x s Event.closed = record x {
    wire = record { received = x.wire.received; eof = true; sent = x.wire.sent };
  }
  run_session x s Event.framed =
      if is_waiting s.phase
      then record x {
        stage = Stage.running (on_frame C x.wire.eof (next_frame C x.wire.eof s.read_buffer) s);
      }
      else x
  run_session x s (Event.written k) =
      if is_writing s.phase
      then record {
        wire = record {
          received = x.wire.received;
          eof = x.wire.eof;
          sent = x.wire.sent ++ take k s.write_buffer;
        };
        stage = Stage.running (flushed s.phase (drop k s.write_buffer) s);
        interrupted = x.interrupted;
      }
      else x
  run_session x s Event.write_failed =
      if is_writing s.phase
      then record x { stage = Stage.running (record s { phase = Phase.ended }) }
      else x
  run_session x s Event.cancelled =
      if is_cancellable s.phase
      then record x {
        stage = Stage.handed (hand_over o s);
        interrupted = x.interrupted + interrupts s.phase;
      }
      else x
  run_session x s Event.adopted = x

  abbrev step_stage : Life → Stage → Event → Life
  step_stage x (Stage.running s) e = run_session x s e
  step_stage x (Stage.handed h) e = adopt_session x h e

  unfoldable pub step : Life → Event → Life
  step x e = step_stage x x.stage e

  -- The latest event is the first of the list.
  unfoldable pub after : Bytes → List Event → Life
  after preamble_rest [] = fresh preamble_rest
  after preamble_rest (e ∷ es) = step (after preamble_rest es) e
