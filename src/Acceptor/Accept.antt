-- ===== src/Acceptor/Accept.antt =====
-- acceptor.rs, `handle_acceptor_accept`, and acceptor/data.rs, `fire_scan_request`: what becomes of a
-- connection that an acceptor accepts. The texts of addresses are the standard library's, and arguments.
pub mod Admit
mod Tests
use five_nines_echo.Base.{ℕ, String, Bool, true, false, Option, none, some, if◌then◌else◌}
use five_nines_echo.Limits.{AcceptorLimits}
use five_nines_echo.Limits.Address.{IpAddr}
use five_nines_echo.Limits.Rate.{RateLimiter, try_take}
use five_nines_echo.Limits.Session.{SessionCap, Task, act}
use five_nines_echo.Scanner.{ScanRequest}
use five_nines_echo.Scanner.Peer.{Texts, scan_request}

-- What the loop keeps between two accepts.
pub record Gate : Type 0 where
  pub drained : Bool
  pub limits : AcceptorLimits

pub record AcceptedClient : Type 0 where
  pub peer_addr : String
  pub trace_id : String
  pub scan : ScanRequest

pub data Accepted : Type 0 where
  failed drained rate_limited cap_reached : Accepted
  served : AcceptedClient → Accepted

-- `try_acquire` with no other task between its steps: the load and its test, and then the exchange.
abbrev exchange : ℕ → Task × ℕ → Task × ℕ
exchange cap (Task.loaded cur, n) = act cap (Task.loaded cur) n
exchange cap (Task.idle, n) = (Task.idle, n)
exchange cap (Task.looping, n) = (Task.looping, n)
exchange cap (Task.refused, n) = (Task.refused, n)
exchange cap (Task.holding, n) = (Task.holding, n)

unfoldable pub try_acquire : SessionCap → Task × ℕ
try_acquire c = exchange c.cap (act c.cap Task.idle c.in_flight)

pub record Arrival : Type 0 where
  pub now : ℕ
  pub ip : IpAddr
  pub port : ℕ
  pub trace_id : String

module _ (t : Texts) (role : String) (server_port : ℕ) where
  abbrev pub client_of : Arrival → AcceptedClient
  client_of a = record {
    peer_addr = t.socket a.ip a.port;
    trace_id = a.trace_id;
    scan = scan_request t role a.ip a.port server_port a.trace_id;
  }

  abbrev pub with_guard : Arrival → Gate → Task × ℕ → Gate × Accepted
  with_guard a g (Task.holding, n) = (
    record g { limits = record g.limits { sessions = record g.limits.sessions { in_flight = n } } },
    Accepted.served (client_of a),
  )
  with_guard a g (Task.refused, n) = (g, Accepted.cap_reached)
  with_guard a g (Task.idle, n) = (g, Accepted.cap_reached)
  with_guard a g (Task.looping, n) = (g, Accepted.cap_reached)
  with_guard a g (Task.loaded cur, n) = (g, Accepted.cap_reached)

  abbrev pub with_token : Arrival → Gate → RateLimiter × Bool → Gate × Accepted
  with_token a g (rate, false) =
      (record g { limits = record g.limits { rate = rate } }, Accepted.rate_limited)
  with_token a g (rate, true) =
      with_guard a (record g { limits = record g.limits { rate = rate } })
        (try_acquire g.limits.sessions)

  abbrev pub admit : Arrival → Gate → Gate × Accepted
  admit a g =
      if g.drained
      then (g, Accepted.drained)
      else with_token a g (try_take a.now a.ip g.limits.rate)

  -- `none` is an accept that failed.
  unfoldable pub handle_acceptor_accept : Option Arrival → Gate → Gate × Accepted
  handle_acceptor_accept none g = (g, Accepted.failed)
  handle_acceptor_accept (some a) g = admit a g
