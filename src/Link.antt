-- ===== src/Link.antt =====
-- supervisor/control.rs: the supervisor's end of a worker's control connection. A connection is known
-- by the number it was accepted under, a waiting `oneshot` sender by a number too.
pub mod Connections
pub mod Epoch
pub mod Successor
pub mod Supervise
mod Tests
use five_nines_echo.Base.{
  ℕ, ◌+◌, Bool, true, false, Option, none, some, String, nat_beq, if◌then◌else◌,
}
use five_nines_echo.Base.Words.{u64}
use five_nines_echo.Control.{ControlMsg, WorkerStatus}

pub record WorkerLink : Type 0 where
  pub writer : Option ℕ
  pub pending_status : Option ℕ
  pub last_generation : Option ℕ
  pub last_pid : Option ℕ
  pub conn_epoch : ℕ

abbrev pub default : WorkerLink
default = record {
  writer = none;
  pending_status = none;
  last_generation = none;
  last_pid = none;
  conn_epoch = 0;
}

-- `accept_control`, on a peer that passed: the connection takes the link over.
abbrev pub install : ℕ → WorkerLink → WorkerLink
install conn l = record l { conn_epoch = u64 (l.conn_epoch + 1); writer = some conn }

abbrev answer : WorkerStatus → Option ℕ → Option (ℕ × WorkerStatus)
answer status none = none
answer status (some tx) = some (tx, status)

-- The reader task, on a `StatusReport`: what it stores and whom it answers.
abbrev pub status_report : WorkerStatus → WorkerLink → WorkerLink × Option (ℕ × WorkerStatus)
status_report status l = (
  record l {
    last_generation = some status.generation;
    last_pid = some status.pid;
    pending_status = none;
  },
  answer status l.pending_status,
)

-- The reader task of the connection that was accepted under `my_epoch`, at the end of its stream.
abbrev pub teardown : ℕ → WorkerLink → WorkerLink
teardown my_epoch l =
    if nat_beq l.conn_epoch my_epoch
    then record l { writer = none; last_generation = none; last_pid = none }
    else l

-- `query_status` up to its wait, with whether the write succeeds; `false` is a return of `None`.
abbrev pub query_begin : ℕ → Bool → WorkerLink → WorkerLink × Bool
query_begin tx wrote l = elim l.writer [
  | none ↦ (l, false)
  | some w ↦ if wrote then (record l { pending_status = some tx }, true) else (l, false)
]

-- `query_status` whose wait ends with no status, by its timeout or because its sender was dropped.
abbrev pub query_give_up : WorkerLink → WorkerLink
query_give_up l = record l { pending_status = none }

-- What a send writes, and on which connection.
abbrev Sent : Type 0
Sent = Option (ℕ × ControlMsg)

abbrev on_writer : ControlMsg → Option ℕ → Sent
on_writer msg none = none
on_writer msg (some conn) = some (conn, msg)

abbrev pub send_non_terminal : ControlMsg → WorkerLink → WorkerLink × Sent
send_non_terminal msg l = (l, on_writer msg l.writer)

abbrev pub send_drain : WorkerLink → WorkerLink × Sent
send_drain l = send_non_terminal ControlMsg.drain l

abbrev pub send_reload : WorkerLink → WorkerLink × Sent
send_reload l = send_non_terminal ControlMsg.reload l

-- A terminal message takes the write half out of the link and shuts it down, whether or not the write
-- succeeds: what stands as sent is the write that is attempted.
abbrev send_terminal : ControlMsg → WorkerLink → WorkerLink × Sent
send_terminal msg l = (record l { pending_status = none; writer = none }, on_writer msg l.writer)

abbrev pub send_shutdown : ℕ → WorkerLink → WorkerLink × Sent
send_shutdown grace_ms l = send_terminal (ControlMsg.shutdown grace_ms) l

abbrev pub send_upgrade : Option String → WorkerLink → WorkerLink × Sent
send_upgrade binary_path l = send_terminal (ControlMsg.upgrade binary_path false none none) l
