-- ===== src/Acceptor/Upgrade/Tests.antt =====
-- acceptor/upgrade.rs: an attempt whose child says that it is ready.
use five_nines_echo.Base.{◌≡◌, refl, true, false, none, some, []}
use five_nines_echo.Handoff.Ready.{
  Flags, PipeRead, ready_ack, wait_for_child_ready, clear_cloexec, guard, drop_guard,
}
use five_nines_echo.Acceptor.Upgrade.{AcceptorUpgradeContext, Attempt, Outcome, do_upgrade_plain}
use five_nines_echo.Acceptor.Upgrade.Settled.{Shows, flags_with, do_upgrade_plain-Settles}

abbrev context : AcceptorUpgradeContext
context = record { generation = 4; binary_path = none; self_path = "/usr/bin/echod" }

abbrev attempt : Attempt
attempt = record {
  listener_fd = 7;
  into_std = true;
  clears = true;
  recloses = true;
  ready_pipe = some 9;
  is_static = true;
  spawned = true;
  read = PipeRead.bytes ready_ack;
  restored = true;
}

abbrev closed_on_exec : Flags
closed_on_exec n = true

-- A child that ends without a word.
rolls_back :
    do_upgrade_plain (record attempt { read = PipeRead.bytes [] }) context closed_on_exec
    ≡ Outcome.rolled_back 7
        (drop_guard true (guard 7) (clear_cloexec 9 (clear_cloexec 7 closed_on_exec)))
unfolding do_upgrade_plain wait_for_child_ready
rolls_back = refl

do_upgrade_plain-Settles_example :
    Shows 7 4 "/usr/bin/echod"
      (flags_with true 7 (some 9) closed_on_exec)
      (flags_with false 7 (some 9) closed_on_exec)
      none
      true
      false
      (do_upgrade_plain attempt context closed_on_exec)
unfolding wait_for_child_ready
do_upgrade_plain-Settles_example = do_upgrade_plain-Settles context attempt closed_on_exec refl refl
