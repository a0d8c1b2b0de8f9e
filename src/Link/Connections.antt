-- ===== src/Link/Connections.antt =====
-- supervisor/control.rs, `accept_control`: connections that come and go while their reader tasks run
-- side by side.
use five_nines_echo.Base.{
  ℕ, suc, ◌⊎◌, inl, inr, Bool, true, false, Option, none, some, List, [], ◌∷◌, String, nat_key,
  if◌then◌else◌, lookup, insert,
}
use five_nines_echo.Auth.{AuthError, PeerAllowlist, check_peer}
use five_nines_echo.Control.{WorkerStatus}
use five_nines_echo.Link.{
  WorkerLink, default, install, status_report, teardown, query_begin, query_give_up, send_drain,
  send_reload, send_shutdown, send_upgrade,
}

-- A reader task: the epoch its connection was accepted under, and whether it still reads.
pub record Reader : Type 0 where
  pub my_epoch : ℕ
  pub reading : Bool

-- The link, the reader task of each connection, and the number of the next connection.
pub record System : Type 0 where
  pub link : WorkerLink
  pub readers : List (ℕ × Reader)
  pub accepted : ℕ

abbrev pub start : System
start = record { link = default; readers = []; accepted = 0 }

-- Each event is one hold of the link's lock.
pub data Event : Type 0 where
  -- a peer's uid and the allowlist of the moment
  connected : Option ℕ → PeerAllowlist → Event
  -- a report read on a connection
  reported : ℕ → WorkerStatus → Event
  -- the end of a connection
  disconnected : ℕ → Event
  queried : ℕ → Bool → Event
  gave_up : Event
  drained reloaded : Event
  shut_down : ℕ → Event
  upgraded : Option String → Event

abbrev pub accept : System → System
accept s =
    let l = install s.accepted s.link in
    record {
      link = l;
      readers = insert s.accepted (record { my_epoch = l.conn_epoch; reading = true }) s.readers;
      accepted = suc s.accepted;
    }

abbrev pub accept_checked : System → AuthError ⊎ ℕ → System
accept_checked s (inl e) = s
accept_checked s (inr uid) = accept s

abbrev pub ended : Reader → Reader
ended r = record { my_epoch = r.my_epoch; reading = false }

-- A task that has ended, or never was, does nothing.
abbrev pub report_on : System → WorkerStatus → Option Reader → System
report_on s status none = s
report_on s status (some r) =
    if r.reading then record s { link = (status_report status s.link).0 } else s

abbrev pub end_reader : System → ℕ → Option Reader → System
end_reader s conn none = s
end_reader s conn (some r) =
    if r.reading
    then record s { link = teardown r.my_epoch s.link; readers = insert conn (ended r) s.readers }
    else s

unfoldable pub step : System → Event → System
step s (Event.connected peer allow) = accept_checked s (check_peer peer allow)
step s (Event.reported conn status) = report_on s status (lookup conn s.readers)
step s (Event.disconnected conn) = end_reader s conn (lookup conn s.readers)
step s (Event.queried tx wrote) = record s { link = (query_begin tx wrote s.link).0 }
step s Event.gave_up = record s { link = query_give_up s.link }
step s Event.drained = record s { link = (send_drain s.link).0 }
step s Event.reloaded = record s { link = (send_reload s.link).0 }
step s (Event.shut_down grace_ms) = record s { link = (send_shutdown grace_ms s.link).0 }
step s (Event.upgraded path) = record s { link = (send_upgrade path s.link).0 }

-- The latest event is the first of the list.
unfoldable pub after : List Event → System
after [] = start
after (e ∷ es) = step (after es) e
