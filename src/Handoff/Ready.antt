-- ===== src/Handoff/Ready.antt =====
-- handoff.rs: the ready pipe between an image and its successor, and the guard of an inherited descriptor.
pub mod Handshake
use five_nines_echo.Base.{
  ℕ, String, Bool, true, false, ◌&&◌, Option, none, some, List, [], ◌∷◌, nat_beq, if◌then◌else◌,
  take,
}
use five_nines_echo.Handoff.{Bytes}

-- The child's side. The variable may be unset, and its text no descriptor; the write may fail.
pub data Signalled : Type 0 where
  no_parent : Signalled
  bad_variable : Signalled
  write_failed : Signalled
  wrote : Bytes → Signalled

abbrev pub ready_ack : Bytes
ready_ack = b'o' ∷ b'k' ∷ 10 ∷ []

abbrev on_fd : Bool → Option ℕ → Signalled
on_fd writable none = Signalled.bad_variable
on_fd true (some fd) = Signalled.wrote ready_ack
on_fd false (some fd) = Signalled.write_failed

-- `parse` reads a descriptor's number, and `writable` is whether its pipe takes the bytes.
unfoldable pub signal_ready_to_parent : (String → Option ℕ) → (ℕ → Bool) → Option String → Signalled
signal_ready_to_parent parse writable none = Signalled.no_parent
signal_ready_to_parent parse writable (some text) = elim (parse text) [
  | none ↦ Signalled.bad_variable
  | some fd ↦ on_fd (writable fd) (some fd)
]

-- The parent's side: one read of the pipe, for so long.
pub data PipeRead : Type 0 where
  timed_out : PipeRead
  join_failed : PipeRead
  read_failed : PipeRead
  bytes : Bytes → PipeRead

pub data Waited : Type 0 where
  ready : Waited
  timeout join_error read_error closed not_ok : Waited

abbrev starts_with_ok : Bytes → Bool
starts_with_ok [] = false
starts_with_ok (b ∷ []) = false
starts_with_ok (b ∷ c ∷ bs) = nat_beq b b'o' && nat_beq c b'k'

abbrev of_buffer : Bytes → Waited
of_buffer [] = Waited.closed
of_buffer (b ∷ bs) = if starts_with_ok (b ∷ bs) then Waited.ready else Waited.not_ok

-- The buffer holds eight bytes.
unfoldable pub wait_for_child_ready : PipeRead → Waited
wait_for_child_ready PipeRead.timed_out = Waited.timeout
wait_for_child_ready PipeRead.join_failed = Waited.join_error
wait_for_child_ready PipeRead.read_failed = Waited.read_error
wait_for_child_ready (PipeRead.bytes bs) = of_buffer (take 8 bs)

-- Which descriptors are closed on exec.
abbrev pub Flags : Type 0
Flags = ℕ → Bool

abbrev set_flag : ℕ → Bool → Flags → Flags
set_flag fd flag flags = λ n. if nat_beq n fd then flag else flags n

unfoldable pub set_cloexec : ℕ → Flags → Flags
set_cloexec fd flags = set_flag fd true flags

unfoldable pub clear_cloexec : ℕ → Flags → Flags
clear_cloexec fd flags = set_flag fd false flags

pub record CloexecGuard : Type 0 where
  pub fd : ℕ
  pub armed : Bool

abbrev pub guard : ℕ → CloexecGuard
guard fd = record { fd = fd; armed = true }

abbrev pub commit : CloexecGuard → CloexecGuard
commit g = record g { armed = false }

-- `recloses` is whether the flag can be set again; where it cannot, there is a warning and no more.
unfoldable pub drop_guard : Bool → CloexecGuard → Flags → Flags
drop_guard recloses g flags = if g.armed && recloses then set_cloexec g.fd flags else flags
