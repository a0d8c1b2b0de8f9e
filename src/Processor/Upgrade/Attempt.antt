-- ===== src/Processor/Upgrade/Attempt.antt =====
-- processor/upgrade.rs, `do_upgrade` and `finish_upgrade_attempt`: one attempt to replace the processor.
use five_nines_echo.Base.Words.{u64}
use five_nines_echo.Base.{ℕ, ◌+◌, String, Bool, true, false, Option, none, some}
use five_nines_echo.Handoff.{resolve_upgrade_exe}
use five_nines_echo.Watchdog.{upgrade_commit_exit_code}
use five_nines_echo.Processor.Registry.{SessionRegistry}
use five_nines_echo.Processor.Upgrade.{
  Json, Answer, Drained, Adoption, drain_session_handoffs, readopt_sessions,
}

-- What the attempt meets: whether the listener can be prepared; what each session hands over; the
-- write end of the ready pipe and the read end of the sessions pipe, if they can be made; whether the
-- capability mode's condition holds and the child starts; whether the child becomes ready; whether
-- the listener can be restored, and the sessions are written to the pipe; which descriptors make a
-- stream; and what other tasks do to the registry from the drain on, such as that a connection which
-- was accepted before it gives its preamble.
pub record Attempt : Type 0 where
  pub listener_fd : ℕ
  pub prepared : Bool
  pub answers : ℕ → Answer
  pub ready_pipe : Option ℕ
  pub sessions_pipe : Option ℕ
  pub is_static : Bool
  pub spawned : Bool
  pub ready : Bool
  pub restored : Bool
  pub piped : Bool
  pub reconstruct : ℕ → Bool
  pub meanwhile : SessionRegistry → SessionRegistry

-- The successor: its program, the numbers in its environment, and what it reads from the pipe.
pub record Successor : Type 0 where
  pub exe : String
  pub listener_fd : ℕ
  pub sessions_fd : ℕ
  pub generation : ℕ
  pub ready_fd : ℕ
  pub sessions_json : String

-- The attempt fails and the processor ends with it; it is rolled back; or the process exits, with the
-- code, and leaves the work to its successor.
pub data Outcome : Type 0 where
  failed : Outcome
  rolled_back : Adoption → Outcome
  exited : ℕ → Successor → Outcome

pub record Upgrade : Type 0 where
  pub generation : ℕ
  pub binary_path : Option String
  pub self_path : String

module _ (t : Attempt) where
  abbrev roll_back : Bool → SessionRegistry → Drained → Outcome
  roll_back false reg d = Outcome.failed
  roll_back true reg d =
      Outcome.rolled_back
        (readopt_sessions t.reconstruct d.handoffs (record { registry = reg; closed = d.closed }))

  abbrev commit : Bool → Successor → Outcome
  commit true next = Outcome.exited upgrade_commit_exit_code next
  commit false next = Outcome.failed

  abbrev finish : Bool → SessionRegistry → Drained → Successor → Outcome
  finish false reg d next = roll_back t.restored reg d
  finish true reg d next = commit t.piped next

  unfoldable pub finish_upgrade_attempt : SessionRegistry → Drained → Successor → Outcome
  finish_upgrade_attempt reg d next = finish t.ready reg d next

  abbrev start_child : Bool → SessionRegistry → Drained → Successor → Outcome
  start_child false reg d next = Outcome.failed
  start_child true reg d next = finish_upgrade_attempt reg d next

  abbrev pub require_static :
      Upgrade → SessionRegistry → Drained → Successor → Option String → Bool → Outcome
  require_static u reg d next none false = Outcome.failed
  require_static u reg d next none true = start_child t.spawned reg d next
  require_static u reg d next (some target) static = start_child t.spawned reg d next

  abbrev pub open_pipes :
      Upgrade → SessionRegistry → Drained → Option ℕ → Option String → Option ℕ → Outcome
  open_pipes u reg d (some ready_fd) (some json) (some sessions_fd) =
      require_static u reg d
        (record {
          exe = resolve_upgrade_exe u.binary_path u.self_path;
          listener_fd = t.listener_fd;
          sessions_fd = sessions_fd;
          generation = u64 (u.generation + 1);
          ready_fd = ready_fd;
          sessions_json = json;
        })
        u.binary_path t.is_static
  open_pipes u reg d none json sessions_fd = Outcome.failed
  open_pipes u reg d (some ready_fd) none sessions_fd = Outcome.failed
  open_pipes u reg d (some ready_fd) (some json) none = Outcome.failed

module _ (json : Json) (t : Attempt) where
  abbrev drained : Upgrade → SessionRegistry × Drained → Outcome
  drained u (reg, d) =
      open_pipes t u (t.meanwhile reg) d t.ready_pipe (json.to_string d.handoffs) t.sessions_pipe

  abbrev pub prepare : Bool → Upgrade → SessionRegistry → Outcome
  prepare false u reg = Outcome.failed
  prepare true u reg = drained u (drain_session_handoffs t.answers reg)

  unfoldable pub do_upgrade : Upgrade → SessionRegistry → Outcome
  do_upgrade u reg = prepare t.prepared u reg
