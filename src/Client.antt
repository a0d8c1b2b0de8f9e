-- ===== src/Client.antt =====
-- admin.rs: the admin command line. It asks the supervisor over its admin socket; what is read there is
-- an argument, and so is the reading of a number.
pub mod Flags
pub mod Verdict
mod Tests
use five_nines_echo.Base.{
  ℕ, String, string_key, ◌==◌, Bool, true, false, ◌&&◌, ◌||◌, Option, none, some, List, [], ◌∷◌,
  if◌then◌else◌, ◌⊎◌, inl, inr,
}
use five_nines_echo.Control.{AdminResp, ControlMsg, RoleHealth, WorkerStatus}
use five_nines_echo.Upgrade.{RollingUpgradeRequest}

pub data Flag : Type 0 where
  target include_tls canary role help unknown : Flag

abbrev pub flag_of : String → Flag
flag_of a =
    if a == "--target" || a == "-t"
    then Flag.target
    else if a == "--include-tls"
    then Flag.include_tls
    else if a == "--canary"
    then Flag.canary
    else if a == "--role" || a == "-r"
    then Flag.role
    else if a == "--help" || a == "-h"
    then Flag.help
    else Flag.unknown

pub data UsageError : Type 0 where
  no_path no_seconds no_worker not_a_number : UsageError
  unknown_argument : String → UsageError

pub data Parsed : Type 0 where
  request : RollingUpgradeRequest → Parsed
  help : Parsed
  refused : UsageError → Parsed

abbrev pub no_flags : RollingUpgradeRequest
no_flags = record { binary_path = none; include_tls = false; canary_secs = none; only_role = none }

module _ (parse : String → Option ℕ) where
  -- The loop over the arguments; a flag's value is the next one, whatever it is.
  unfoldable pub parse_flags : List String → RollingUpgradeRequest → Parsed
  parse_flags [] r = Parsed.request r
  parse_flags (a ∷ []) r = elim (flag_of a) [
    | target ↦ Parsed.refused UsageError.no_path
    | include_tls ↦ Parsed.request (record r { include_tls = true })
    | canary ↦ Parsed.refused UsageError.no_seconds
    | role ↦ Parsed.refused UsageError.no_worker
    | help ↦ Parsed.help
    | unknown ↦ Parsed.refused (UsageError.unknown_argument a)
  ]
  parse_flags (a ∷ v ∷ args) r = elim (flag_of a) [
    | target ↦ parse_flags args (record r { binary_path = some v })
    | include_tls ↦ parse_flags (v ∷ args) (record r { include_tls = true })
    | canary ↦ elim (parse v) [
      | none ↦ Parsed.refused UsageError.not_a_number
      | some n ↦ parse_flags args (record r { canary_secs = some n })
    ]
    | role ↦ parse_flags args (record r { only_role = some v })
    | help ↦ Parsed.help
    | unknown ↦ Parsed.refused (UsageError.unknown_argument a)
  ]

-- What a line of the supervisor's answer is: none at its end, or a failed read; blank; not to be parsed,
-- or of another version; or an answer.
pub data Line : Type 0 where
  closed : Line
  read_error : Line
  blank : Line
  incompatible : Line
  answer : AdminResp → Line

pub data Outcome : Type 0 where
  done : Outcome
  helped : Outcome
  usage : UsageError → Outcome
  -- the socket, the encoding or the write
  unreachable : Outcome
  closed_early : Outcome
  read_failed : Outcome
  bad_answer : Outcome
  unexpected : Outcome
  upgrade_failed : Outcome
  admin_error : String → Outcome

-- `none` while the lines decide nothing.
unfoldable pub stream_upgrade : Bool → List Line → Option Outcome
stream_upgrade overall_ok [] = none
stream_upgrade overall_ok (Line.closed ∷ lines) = some Outcome.closed_early
stream_upgrade overall_ok (Line.read_error ∷ lines) = some Outcome.read_failed
stream_upgrade overall_ok (Line.blank ∷ lines) = stream_upgrade overall_ok lines
stream_upgrade overall_ok (Line.incompatible ∷ lines) = some Outcome.bad_answer
stream_upgrade overall_ok
      (Line.answer (AdminResp.upgrade_step worker phase before after ok message) ∷ lines) =
    stream_upgrade (overall_ok && ok) lines
stream_upgrade overall_ok (Line.answer (AdminResp.upgrade_complete all_ok) ∷ lines) =
    some (if all_ok && overall_ok then Outcome.done else Outcome.upgrade_failed)
stream_upgrade overall_ok (Line.answer (AdminResp.error message) ∷ lines) =
    some (Outcome.admin_error message)
stream_upgrade overall_ok (Line.answer AdminResp.ok ∷ lines) = some Outcome.unexpected
stream_upgrade overall_ok (Line.answer (AdminResp.status workers health) ∷ lines) =
    some Outcome.unexpected

abbrev pub upgrade_msg : RollingUpgradeRequest → ControlMsg
upgrade_msg r = ControlMsg.upgrade r.binary_path r.include_tls r.canary_secs r.only_role

-- The supervisor as the client meets it: `none` where it cannot be reached or written to, else the
-- lines of its answer to a message.
abbrev pub Supervisor : Type 0
Supervisor = ControlMsg → Option (List Line)

abbrev streamed : Option (List Line) → Option Outcome
streamed none = some Outcome.unreachable
streamed (some lines) = stream_upgrade true lines

abbrev pub on_parsed : Supervisor → Parsed → Option Outcome
on_parsed supervisor Parsed.help = some Outcome.helped
on_parsed supervisor (Parsed.refused e) = some (Outcome.usage e)
on_parsed supervisor (Parsed.request r) = streamed (supervisor (upgrade_msg r))

unfoldable pub run_upgrade : (String → Option ℕ) → Supervisor → List String → Option Outcome
run_upgrade parse supervisor args = on_parsed supervisor (parse_flags parse args no_flags)

-- One line is read; a blank one is an answer that is missing.
abbrev first_answer : List Line → Outcome ⊎ AdminResp
first_answer [] = inl Outcome.closed_early
first_answer (Line.closed ∷ lines) = inl Outcome.closed_early
first_answer (Line.read_error ∷ lines) = inl Outcome.read_failed
first_answer (Line.blank ∷ lines) = inl Outcome.closed_early
first_answer (Line.incompatible ∷ lines) = inl Outcome.bad_answer
first_answer (Line.answer r ∷ lines) = inr r

abbrev answered : Option (List Line) → Outcome ⊎ AdminResp
answered none = inl Outcome.unreachable
answered (some lines) = first_answer lines

unfoldable pub dial_and_request : Supervisor → ControlMsg → Outcome ⊎ AdminResp
dial_and_request supervisor msg = answered (supervisor msg)

abbrev to_status : Outcome ⊎ AdminResp → Outcome
to_status (inl o) = o
to_status (inr (AdminResp.status workers health)) = Outcome.done
to_status (inr (AdminResp.error message)) = Outcome.admin_error message
to_status (inr r) = Outcome.unexpected

abbrev to_ok : Outcome ⊎ AdminResp → Outcome
to_ok (inl o) = o
to_ok (inr AdminResp.ok) = Outcome.done
to_ok (inr (AdminResp.error message)) = Outcome.admin_error message
to_ok (inr r) = Outcome.unexpected

-- Of the arguments only the first is looked at.
abbrev with_args : List String → Outcome → Outcome
with_args [] run = run
with_args (a ∷ args) run =
    if a == "--help" || a == "-h"
    then Outcome.helped
    else Outcome.usage (UsageError.unknown_argument a)

unfoldable pub run_status : Supervisor → List String → Outcome
run_status supervisor args =
    with_args args (to_status (dial_and_request supervisor ControlMsg.status))

unfoldable pub run_drain : Supervisor → List String → Outcome
run_drain supervisor args = with_args args (to_ok (dial_and_request supervisor ControlMsg.drain))

unfoldable pub run_reload : Supervisor → List String → Outcome
run_reload supervisor args = with_args args (to_ok (dial_and_request supervisor ControlMsg.reload))
