-- ===== src/Acceptor/Accept/Tests.antt =====
-- acceptor.rs: a second client of an acceptor whose cap is one.
use five_nines_echo.Base.{false, not, ◌&&◌, if◌then◌else◌}
use five_nines_echo.Limits.Address.{IpAddr}
use five_nines_echo.Limits.Rate.{try_take, with_limits}
use five_nines_echo.Scanner.Peer.{Texts}
use five_nines_echo.Acceptor.Accept.{Gate, Arrival, handle_acceptor_accept}
use five_nines_echo.Acceptor.Accept.Admit.{Admits, handle_acceptor_accept-Admits}
use five_nines_echo.Base.{some}

abbrev texts : Texts
texts = record { print = λ n. "1"; ip = λ ip. "a"; socket = λ ip port. "a:1" }

abbrev gate : Gate
gate = record {
  drained = false;
  limits = record { sessions = record { in_flight = 1; cap = 1 }; rate = with_limits 0 0 0 0 };
}

abbrev arrival : Arrival
arrival = record { now = 0; ip = IpAddr.v4 1; port = 1; trace_id = "t" }

handle_acceptor_accept-Admits_example :
    let r = try_take arrival.now arrival.ip gate.limits.rate in
    Admits texts "plain" 7070 gate
      (not gate.drained && r.1)
      (if gate.drained then gate.limits.rate else r.0)
      (handle_acceptor_accept texts "plain" 7070 (some arrival) gate)
handle_acceptor_accept-Admits_example =
    handle_acceptor_accept-Admits texts "plain" 7070 arrival gate
