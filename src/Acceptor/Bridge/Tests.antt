-- ===== src/Acceptor/Bridge/Tests.antt =====
-- acceptor/tls_client.rs: a bridge that a cancel meets between a read and its write.
use five_nines_echo.Base.{◌≡◌, refl, some, List, [], ◌∷◌}
use five_nines_echo.Acceptor.Bridge.{BridgeExit, Copy, Side, Event, step, copy_direction, after}
use five_nines_echo.Acceptor.Bridge.Kept.{IsWhole, after-IsWhole}

-- The latest first.
abbrev quiesced : List Event
quiesced =
    Event.joined
    ∷ Event.watchdog_ended
    ∷ Event.copied Side.back Copy.token_seen
    ∷ Event.copied Side.forth Copy.token_seen
    ∷ Event.copied Side.forth (Copy.wrote 2)
    ∷ Event.cancel_received
    ∷ Event.copied Side.forth (Copy.read (1 ∷ 2 ∷ []))
    ∷ []

handed_over : (after quiesced).exit ≡ some BridgeExit.cancelled
unfolding after step copy_direction
handed_over = refl

-- The client does not read: the grace ends the bridge, and the session is handed over torn.
abbrev wedged : List Event
wedged =
    Event.grace_elapsed
    ∷ Event.copied Side.back (Copy.wrote 1)
    ∷ Event.cancel_received
    ∷ Event.copied Side.back (Copy.read (1 ∷ 2 ∷ []))
    ∷ []

handed_over_torn :
    ((after wedged).exit ≡ some BridgeExit.cancelled)
    × ((after wedged).back.taken ≡ 1 ∷ 2 ∷ [])
    × ((after wedged).back.given ≡ 1 ∷ [])
unfolding after step copy_direction
handed_over_torn = (refl, refl, refl)

after-IsWhole_example : IsWhole (after quiesced)
after-IsWhole_example = after-IsWhole quiesced
