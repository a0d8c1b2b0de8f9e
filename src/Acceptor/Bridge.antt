-- ===== src/Acceptor/Bridge.antt =====
-- acceptor/tls_client.rs, `bidirectional_with_idle` and `copy_direction`: the bridge between a TLS client
-- and the processor. Two copy loops, the idle watchdog and the wait for a cancel run interleaved; an
-- event is what one of them does between two points at which it can wait.
pub mod Kept
mod Tests
use five_nines_echo.Base.{
  ℕ, Bool, true, false, ◌&&◌, ◌||◌, not, Option, none, some, List, [], ◌∷◌, ◌++◌, if◌then◌else◌,
  take, drop,
}
use five_nines_echo.Handoff.{Bytes}

pub data BridgeExit : Type 0 where
  ended cancelled : BridgeExit

-- A copy loop: before a read; with so much of a frame still to write; stopped; or stopped by a write
-- that failed, with so much unwritten.
pub data Phase : Type 0 where
  reading : Phase
  writing : Bytes → Phase
  stopped : Phase
  broken : Bytes → Phase

-- One direction: all that it has read and all that it has written.
pub record Direction : Type 0 where
  pub taken : Bytes
  pub given : Bytes
  pub phase : Phase

pub data Copy : Type 0 where
  -- a read of no bytes is the end of the stream
  read : Bytes → Copy
  read_failed : Copy
  token_seen : Copy
  wrote : ℕ → Copy
  write_failed : Copy

pub data Side : Type 0 where
  forth back : Side

pub record Bridge : Type 0 where
  pub forth : Direction
  pub back : Direction
  -- the cancellation token
  pub token : Bool
  pub upgrade : Bool
  -- whether the watchdog and the wait for the caller's cancel still run
  pub watching : Bool
  pub listening : Bool
  pub exit : Option BridgeExit
  -- whether the drain grace ended the bridge
  pub graced : Bool

pub data Event : Type 0 where
  copied : Side → Copy → Event
  idle_elapsed : Event
  watchdog_ended : Event
  cancel_received : Event
  listener_ended : Event
  joined : Event
  grace_elapsed : Event

abbrev idle_direction : Direction
idle_direction = record { taken = []; given = []; phase = Phase.reading }

abbrev pub start : Bridge
start = record {
  forth = idle_direction;
  back = idle_direction;
  token = false;
  upgrade = false;
  watching = true;
  listening = true;
  exit = none;
  graced = false;
}

abbrev after_write : Bytes → Phase
after_write [] = Phase.reading
after_write (b ∷ bs) = Phase.writing (b ∷ bs)

-- The direction after an event, and whether it has stopped by it. The token is looked at before a read
-- and not between a read and its write.
abbrev pub copy_in : Phase → Bool → Copy → Direction → Direction × Bool
copy_in Phase.reading false (Copy.read []) d = (record d { phase = Phase.stopped }, true)
copy_in Phase.reading false (Copy.read (b ∷ bs)) d =
    (record d { taken = d.taken ++ b ∷ bs; phase = Phase.writing (b ∷ bs) }, false)
copy_in Phase.reading false Copy.read_failed d = (record d { phase = Phase.stopped }, true)
copy_in Phase.reading true Copy.token_seen d = (record d { phase = Phase.stopped }, true)
copy_in (Phase.writing left) token (Copy.wrote k) d =
    (record d { given = d.given ++ take k left; phase = after_write (drop k left) }, false)
copy_in (Phase.writing left) token Copy.write_failed d =
    (record d { phase = Phase.broken left }, true)
copy_in _ token e d = (d, false)

unfoldable pub copy_direction : Bool → Copy → Direction → Direction × Bool
copy_direction token e d = copy_in d.phase token e d

abbrev put : Side → Direction × Bool → Bridge → Bridge
put Side.forth (d, ends) x = record x { forth = d; token = x.token || ends }
put Side.back (d, ends) x = record x { back = d; token = x.token || ends }

abbrev side : Side → Bridge → Direction
side Side.forth x = x.forth
side Side.back x = x.back

abbrev pub is_over : Phase → Bool
is_over Phase.stopped = true
is_over (Phase.broken left) = true
is_over Phase.reading = false
is_over (Phase.writing left) = false

abbrev pub exit_of : Bool → BridgeExit
exit_of upgrade = if upgrade then BridgeExit.cancelled else BridgeExit.ended

abbrev all_done : Bridge → Bool
all_done x = is_over x.forth.phase && is_over x.back.phase && not x.watching && not x.listening

abbrev pub on_event : Event → Bridge → Bridge
on_event (Event.copied s e) x = put s (copy_direction x.token e (side s x)) x
on_event Event.idle_elapsed x =
    if x.watching && not x.token then record x { token = true; watching = false } else x
on_event Event.watchdog_ended x = if x.token then record x { watching = false } else x
on_event Event.cancel_received x =
    if x.listening then record x { upgrade = true; token = true; listening = false } else x
on_event Event.listener_ended x = if x.token then record x { listening = false } else x
on_event Event.joined x = if all_done x then record x { exit = some (exit_of x.upgrade) } else x
on_event Event.grace_elapsed x =
    if x.token then record x { exit = some (exit_of x.upgrade); graced = true } else x

abbrev step_at : Option BridgeExit → Event → Bridge → Bridge
step_at none e x = on_event e x
step_at (some exit) e x = x

unfoldable pub step : Event → Bridge → Bridge
step e x = step_at x.exit e x

-- The latest event is the first of the list.
unfoldable pub after : List Event → Bridge
after [] = start
after (e ∷ es) = step e (after es)
