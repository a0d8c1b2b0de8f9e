-- ===== src/Acceptor/Upgrade.antt =====
-- acceptor/upgrade.rs: one attempt to replace an acceptor. The TLS acceptor's is in acceptor/tls_drain.rs.
pub mod Settled
mod Tests
use five_nines_echo.Base.{ℕ, ◌+◌, String, Bool, true, false, Option, none, some}
use five_nines_echo.Base.Words.{u64}
use five_nines_echo.Handoff.{resolve_upgrade_exe}
use five_nines_echo.Handoff.Ready.{
  Flags, PipeRead, Waited, wait_for_child_ready, clear_cloexec, guard, commit, drop_guard,
}
use five_nines_echo.Watchdog.{upgrade_commit_exit_code}

pub record AcceptorUpgradeContext : Type 0 where
  pub generation : ℕ
  pub binary_path : Option String
  pub self_path : String

-- What the attempt meets: whether the listener can be taken, and its flag be cleared and be set again;
-- the write end of the ready pipe, if it can be made; whether the capability mode's condition holds and
-- the child starts; what is read from the pipe; and whether the listener can be restored.
pub record Attempt : Type 0 where
  pub listener_fd : ℕ
  pub into_std : Bool
  pub clears : Bool
  pub recloses : Bool
  pub ready_pipe : Option ℕ
  pub is_static : Bool
  pub spawned : Bool
  pub read : PipeRead
  pub restored : Bool

-- The successor's program and the numbers in its environment.
pub record Successor : Type 0 where
  pub exe : String
  pub listener_fd : ℕ
  pub generation : ℕ
  pub ready_fd : ℕ

-- What the attempt leaves, with which descriptors are closed on exec: an error, with which the acceptor
-- ends, and the write end of the ready pipe if it is still open; its listener again; or the exit of the
-- process. The number of a descriptor that was closed keeps its flag.
pub data Outcome : Type 0 where
  failed : Flags → Option ℕ → Outcome
  rolled_back : ℕ → Flags → Outcome
  exited : ℕ → Successor → Flags → Outcome

module _ (t : Attempt) where
  -- The guard is dropped with the function's other values.
  abbrev pub dropped : Flags → Flags
  dropped flags = drop_guard t.recloses (guard t.listener_fd) flags

  abbrev pub roll_back : Bool → Flags → Outcome
  roll_back true flags = Outcome.rolled_back t.listener_fd (dropped flags)
  roll_back false flags = Outcome.failed (dropped flags) none

  abbrev pub finish : Waited → Successor → Flags → Outcome
  finish Waited.ready next flags =
      Outcome.exited upgrade_commit_exit_code next
        (drop_guard t.recloses (commit (guard t.listener_fd)) flags)
  finish Waited.timeout next flags = roll_back t.restored flags
  finish Waited.join_error next flags = roll_back t.restored flags
  finish Waited.read_error next flags = roll_back t.restored flags
  finish Waited.closed next flags = roll_back t.restored flags
  finish Waited.not_ok next flags = roll_back t.restored flags

  -- The write end is a plain number: on an error nothing closes it.
  abbrev pub start_child : Bool → Successor → Flags → Outcome
  start_child false next flags = Outcome.failed (dropped flags) (some next.ready_fd)
  start_child true next flags = finish (wait_for_child_ready t.read) next flags

  abbrev pub require_static : Option String → Bool → Successor → Flags → Outcome
  require_static none false next flags = Outcome.failed (dropped flags) (some next.ready_fd)
  require_static none true next flags = start_child t.spawned next flags
  require_static (some target) static next flags = start_child t.spawned next flags

  -- The write end of the pipe is made without the flag.
  abbrev pub with_pipe : AcceptorUpgradeContext → Option ℕ → Flags → Outcome
  with_pipe u none flags = Outcome.failed (dropped flags) none
  with_pipe u (some ready_fd) flags =
      require_static u.binary_path t.is_static
        (record {
          exe = resolve_upgrade_exe u.binary_path u.self_path;
          listener_fd = t.listener_fd;
          generation = u64 (u.generation + 1);
          ready_fd = ready_fd;
        })
        (clear_cloexec ready_fd flags)

  abbrev pub with_guard : AcceptorUpgradeContext → Bool → Flags → Outcome
  with_guard u false flags = Outcome.failed flags none
  with_guard u true flags = with_pipe u t.ready_pipe (clear_cloexec t.listener_fd flags)

  abbrev pub with_listener : AcceptorUpgradeContext → Bool → Flags → Outcome
  with_listener u false flags = Outcome.failed flags none
  with_listener u true flags = with_guard u t.clears flags

  unfoldable pub do_upgrade_plain : AcceptorUpgradeContext → Flags → Outcome
  do_upgrade_plain u flags = with_listener u t.into_std flags
