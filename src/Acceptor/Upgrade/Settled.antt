-- ===== src/Acceptor/Upgrade/Settled.antt =====
-- acceptor/upgrade.rs: an attempt to replace an acceptor ends with one owner of the listener.
use five_nines_echo.Base.{
  ℕ, ◌+◌, String, ◌≡◌, refl, ap, ◌∙◌, Bool, true, false, ◌&&◌, ◌||◌, not, Option, none, some,
  nat_beq, nat_beq_iff, if◌then◌else◌,
}
use five_nines_echo.Base.Words.{u64}
use five_nines_echo.Watchdog.{upgrade_commit_exit_code}
use five_nines_echo.Handoff.{resolve_upgrade_exe}
use five_nines_echo.Handoff.Ready.{
  Flags, Waited, wait_for_child_ready, set_cloexec, clear_cloexec, guard, commit, drop_guard,
}
use five_nines_echo.Acceptor.Upgrade.{
  AcceptorUpgradeContext, Attempt, Successor, Outcome, dropped, roll_back, finish, start_child,
  require_static, with_pipe, with_listener, do_upgrade_plain,
}

abbrev pub is_ready : Waited → Bool
is_ready Waited.ready = true
is_ready Waited.timeout = false
is_ready Waited.join_error = false
is_ready Waited.read_error = false
is_ready Waited.closed = false
is_ready Waited.not_ok = false

abbrev pub has : {A : Type 0} → Option A → Bool
has none = false
has (some x) = true

-- Whether the attempt comes to start the child.
abbrev pub starts : AcceptorUpgradeContext → Attempt → Bool
starts u t =
    t.into_std && t.clears && has t.ready_pipe && (has u.binary_path || t.is_static) && t.spawned

-- Whether a descriptor is the given one.
abbrev pub is_end : Option ℕ → ℕ → Bool
is_end none n = false
is_end (some fd) n = nat_beq n fd

-- The flags as before, but for those of the ready pipe's write end, which is not closed on exec, and
-- of the listener.
abbrev pub flags_with : Bool → ℕ → Option ℕ → Flags → Flags
flags_with closed fd pipe before n =
    if is_end pipe n then false else if nat_beq n fd then closed else before n

-- What an outcome shows, for an attempt that is `committed`, leaves the listener `back` or leaves a
-- descriptor `open'`. `left` and `given` are which descriptors are closed on exec after an attempt
-- that does not commit and after one that does.
abbrev pub Shows : ℕ → ℕ → String → Flags → Flags → Option ℕ → Bool → Bool → Outcome → Type 0
Shows fd generation exe left given open' committed back (Outcome.failed flags leaked) =
    (committed ≡ false) × (back ≡ false) × (leaked ≡ open') × ((n : ℕ) → flags n ≡ left n)
Shows fd generation exe left given open' committed back (Outcome.rolled_back listener flags) =
    (committed ≡ false) × (back ≡ true) × (listener ≡ fd) × ((n : ℕ) → flags n ≡ left n)
Shows fd generation exe left given open' committed back (Outcome.exited code next flags) =
    (committed ≡ true)
    × (back ≡ false)
    × (code ≡ upgrade_commit_exit_code)
    × (next.listener_fd ≡ fd)
    × (next.generation ≡ u64 (generation + 1))
    × (next.exe ≡ exe)
    × ((n : ℕ) → flags n ≡ given n)

swap :
    (b c : Bool) (x : Bool)
    → (b ≡ true → c ≡ false)
    → (if b then true else if c then false else if b then false else x)
      ≡ (if c then false else if b then true else x)
swap true true x h = h refl
swap true false x h = refl
swap false true x h = refl
swap false false x h = refl

again : (b x : Bool) → (if b then true else if b then false else x) ≡ (if b then true else x)
again true x = refl
again false x = refl

module _ (u : AcceptorUpgradeContext) (t : Attempt) (flags : Flags)
    (e : flags t.listener_fd ≡ true) where
  -- What is left if the write end of the pipe is `pipe` and the listener's flag was `cleared`.
  abbrev Ends : Option ℕ → Bool → Option ℕ → Bool → Bool → Outcome → Type 0
  Ends pipe cleared open' committed back o =
      Shows t.listener_fd u.generation (resolve_upgrade_exe u.binary_path u.self_path)
        (flags_with (not cleared || t.recloses) t.listener_fd pipe flags)
        (flags_with false t.listener_fd pipe flags) open' committed back o

  picked :
      (n : ℕ) (b : Bool) → nat_beq n t.listener_fd ≡ b → flags n ≡ (if b then true else flags n)
  picked n true h = ap flags ((nat_beq_iff n t.listener_fd).0 h) ∙ e
  picked n false h = refl

  untouched : (n : ℕ) → flags n ≡ flags_with true t.listener_fd none flags n
  untouched n = picked n (nat_beq n t.listener_fd) refl

  abbrev cleared_flags : Flags
  cleared_flags = clear_cloexec t.listener_fd flags

  restored_if :
      (recloses : Bool) (n : ℕ)
      → drop_guard recloses (guard t.listener_fd) cleared_flags n
        ≡ flags_with recloses t.listener_fd none flags n
  unfolding drop_guard set_cloexec clear_cloexec
  restored_if true n = again (nat_beq n t.listener_fd) (flags n)
  restored_if false n = refl

  restored : (n : ℕ) → dropped t cleared_flags n ≡ flags_with t.recloses t.listener_fd none flags n
  restored n = restored_if t.recloses n

  module _ (ready_fd : ℕ) (other : nat_beq t.listener_fd ready_fd ≡ false) where
    abbrev piped_flags : Flags
    piped_flags = clear_cloexec ready_fd cleared_flags

    apart : (n : ℕ) → nat_beq n t.listener_fd ≡ true → nat_beq n ready_fd ≡ false
    apart n h = ap (λ m. nat_beq m ready_fd) ((nat_beq_iff n t.listener_fd).0 h) ∙ other

    restored_piped_if :
        (recloses : Bool) (n : ℕ)
        → drop_guard recloses (guard t.listener_fd) piped_flags n
          ≡ flags_with recloses t.listener_fd (some ready_fd) flags n
    unfolding drop_guard set_cloexec clear_cloexec
    restored_piped_if true n =
        swap (nat_beq n t.listener_fd) (nat_beq n ready_fd) (flags n) (apart n)
    restored_piped_if false n = refl

    restored_piped :
        (n : ℕ)
        → dropped t piped_flags n ≡ flags_with t.recloses t.listener_fd (some ready_fd) flags n
    restored_piped n = restored_piped_if t.recloses n

    given_lem :
        (n : ℕ)
        → drop_guard t.recloses (commit (guard t.listener_fd)) piped_flags n
          ≡ flags_with false t.listener_fd (some ready_fd) flags n
    unfolding drop_guard clear_cloexec
    given_lem n = refl

    abbrev next : Successor
    next = record {
      exe = resolve_upgrade_exe u.binary_path u.self_path;
      listener_fd = t.listener_fd;
      generation = u64 (u.generation + 1);
      ready_fd = ready_fd;
    }

    roll_back-Ends :
        (back : Bool) → Ends (some ready_fd) true none false back (roll_back t back piped_flags)
    roll_back-Ends true = (refl, refl, refl, restored_piped)
    roll_back-Ends false = (refl, refl, refl, restored_piped)

    finish-Ends :
        (w : Waited)
        → Ends
            (some ready_fd)
            true
            none
            (is_ready w)
            (not (is_ready w) && t.restored)
            (finish t w next piped_flags)
    finish-Ends Waited.ready = (refl, refl, refl, refl, refl, refl, given_lem)
    finish-Ends Waited.timeout = roll_back-Ends t.restored
    finish-Ends Waited.join_error = roll_back-Ends t.restored
    finish-Ends Waited.read_error = roll_back-Ends t.restored
    finish-Ends Waited.closed = roll_back-Ends t.restored
    finish-Ends Waited.not_ok = roll_back-Ends t.restored

    -- What is left where the child is started only if `on` holds.
    abbrev GoesOn : Bool → Outcome → Type 0
    GoesOn on o =
        let w = wait_for_child_ready t.read in
        Ends (some ready_fd) true (if on then none else some ready_fd) (on && is_ready w)
          (on && (not (is_ready w) && t.restored)) o

    start_child-Ends : (spawned : Bool) → GoesOn spawned (start_child t spawned next piped_flags)
    start_child-Ends true = finish-Ends (wait_for_child_ready t.read)
    start_child-Ends false = (refl, refl, refl, restored_piped)

    require_static-Ends :
        (target : Option String) (static : Bool)
        → GoesOn
            ((has target || static) && t.spawned)
            (require_static t target static next piped_flags)
    require_static-Ends none true = start_child-Ends t.spawned
    require_static-Ends none false = (refl, refl, refl, restored_piped)
    require_static-Ends (some target) static = start_child-Ends t.spawned

  -- What is left of an attempt that clears the listener's flag if `cleared` holds, makes `pipe`, and
  -- starts the child if `on` holds.
  abbrev Settles : Bool → Bool → Option ℕ → Outcome → Type 0
  Settles cleared on pipe o =
      let w = wait_for_child_ready t.read in
      Ends pipe cleared (if on then none else pipe) (on && is_ready w)
        (on && (not (is_ready w) && t.restored)) o

  with_pipe-Ends :
      (pipe : Option ℕ)
      → is_end pipe t.listener_fd ≡ false
      → Settles true
          (has pipe && (has u.binary_path || t.is_static) && t.spawned)
          pipe
          (with_pipe t u pipe cleared_flags)
  with_pipe-Ends none other = (refl, refl, refl, restored)
  with_pipe-Ends (some ready_fd) other =
      require_static-Ends ready_fd other u.binary_path t.is_static

  with_listener-Ends :
      (into_std clears : Bool)
      → is_end t.ready_pipe t.listener_fd ≡ false
      → Settles
          (into_std && clears)
          (into_std
            && clears
            && has t.ready_pipe
            && (has u.binary_path || t.is_static)
            && t.spawned)
          (if into_std && clears then t.ready_pipe else none)
          (with_listener (record t { into_std = into_std; clears = clears }) u into_std flags)
  with_listener-Ends false clears other = (refl, refl, refl, untouched)
  with_listener-Ends true false other = (refl, refl, refl, untouched)
  with_listener-Ends true true other = with_pipe-Ends t.ready_pipe other

  -- Take a listener that is closed on exec and is not the write end of the ready pipe. An attempt to
  -- replace the acceptor exits, with the code of a commit, exactly if the child is started and says
  -- that it is ready; then the child's program is the target or else the acceptor's own, it has the
  -- next generation, and the listener is a descriptor that it inherits. The acceptor has its listener
  -- again exactly if the child is started, does not say that it is ready, and the listener can be
  -- restored. Without a commit the listener is closed on exec, unless its flag was cleared and cannot
  -- be set again. The write end of the pipe, if it is made, is not closed on exec, and it is still open
  -- after an error exactly if the child was not started. No other descriptor's flag changes.
  pub do_upgrade_plain-Settles :
      is_end t.ready_pipe t.listener_fd ≡ false
      → Settles
          (t.into_std && t.clears)
          (starts u t)
          (if t.into_std && t.clears then t.ready_pipe else none)
          (do_upgrade_plain t u flags)
  unfolding do_upgrade_plain
  do_upgrade_plain-Settles = with_listener-Ends t.into_std t.clears
