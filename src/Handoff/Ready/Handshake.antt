-- ===== src/Handoff/Ready/Handshake.antt =====
-- handoff.rs: a parent takes its child for ready exactly if the child has said so.
use five_nines_echo.Base.{
  ℕ, String, ◌≡◌, refl, Bool, true, false, Option, none, some, [], arith, nat_beq, if◌then◌else◌,
}
use five_nines_echo.Handoff.{Bytes}
use five_nines_echo.Handoff.Ready.{
  Signalled, PipeRead, Waited, on_fd, signal_ready_to_parent, wait_for_child_ready, Flags, guard,
  commit, drop_guard, set_cloexec, clear_cloexec,
}

-- What the child's signal leaves in the pipe once the child has closed it.
abbrev pub piped : Signalled → Bytes
piped Signalled.no_parent = []
piped Signalled.bad_variable = []
piped Signalled.write_failed = []
piped (Signalled.wrote bs) = bs

abbrev pub took : Signalled → Waited
took Signalled.no_parent = Waited.closed
took Signalled.bad_variable = Waited.closed
took Signalled.write_failed = Waited.closed
took (Signalled.wrote bs) = Waited.ready

handshake_at :
    (writable : Bool) (fd : Option ℕ)
    → wait_for_child_ready (PipeRead.bytes (piped (on_fd writable fd))) ≡ took (on_fd writable fd)
unfolding wait_for_child_ready
handshake_at writable none = refl
handshake_at true (some fd) = refl
handshake_at false (some fd) = refl

handshake_parsed :
    (parse : String → Option ℕ) (writable : ℕ → Bool) (variable : Option String)
    → let s = signal_ready_to_parent parse writable variable in
      wait_for_child_ready (PipeRead.bytes (piped s)) ≡ took s
unfolding signal_ready_to_parent wait_for_child_ready
handshake_parsed parse writable none = refl
handshake_parsed parse writable (some text) =
    elim (parse text)
      as (λ o.
        wait_for_child_ready (
          PipeRead.bytes (
            piped
              (elim o [ none ↦ Signalled.bad_variable | some fd ↦ on_fd (writable fd) (some fd) ])))
        ≡ took
            (elim o [ none ↦ Signalled.bad_variable | some fd ↦ on_fd (writable fd) (some fd) ])) [
              | none ↦ refl
              | some fd ↦ handshake_at (writable fd) (some fd)
            ]

-- A guard that is dropped before its commit leaves the descriptor closed on exec if the flag can be set
-- again, and one that was committed leaves it open; no other descriptor changes.
drop_guard-clear :
    (recloses : Bool) (fd n : ℕ) (flags : Flags)
    → (drop_guard recloses (guard fd) (clear_cloexec fd flags) n
        ≡ (if nat_beq n fd then recloses else flags n))
      × (drop_guard recloses (commit (guard fd)) (clear_cloexec fd flags) n
          ≡ (if nat_beq n fd then false else flags n))
unfolding drop_guard set_cloexec clear_cloexec
drop_guard-clear true fd n flags = (ground arith, refl)
drop_guard-clear false fd n flags = (ground arith, refl)
