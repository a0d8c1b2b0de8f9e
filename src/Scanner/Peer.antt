-- ===== src/Scanner/Peer.antt =====
-- scanner.rs, acceptor/data.rs, acceptor.rs and processor/sidecar.rs: whether what the scanner publishes of
-- a client meets the client's session at the processor, which goes by the text of its address.
use Prim.Native.String.{◌++◌ as append, count}
use text.Mathlib.TextEquality.{eq_iff}
use text.Mathlib.TextLemmas.{length-append}
use five_nines_echo.Base.{
  ℕ, String, string_key, ◌==◌, ◌≡◌, ◌≢◌, ap, ◌∙◌, Bool, true, false, ◌||◌, if◌then◌else◌, Option,
  arith,
}
use five_nines_echo.Limits.Address.{IpAddr}
use five_nines_echo.Processor.Session.{Session, Origin}
use five_nines_echo.Processor.Registry.{
  SessionRegistry, empty, register, store_metadata_if_session_active,
}
use five_nines_echo.Scanner.{ScanRequest, peer_of, metadata_of}

-- The texts of addresses, as `Display` of the standard library writes them: an IPv6 address with a port
-- stands in brackets.
pub record Texts : Type 0 where
  pub print : ℕ → String
  pub ip : IpAddr → String
  pub socket : IpAddr → ℕ → String

pub record IsDisplay (t : Texts) : Type 0 where
  pub socket_v4 :
      (a port : ℕ)
      → t.socket (IpAddr.v4 a) port ≡ append (t.ip (IpAddr.v4 a)) (append ":" (t.print port))
  pub socket_v6 :
      (a port : ℕ)
      → t.socket (IpAddr.v6 a) port
        ≡ append "[" (append (t.ip (IpAddr.v6 a)) (append "]:" (t.print port)))

abbrev pub is_v4 : IpAddr → Bool
is_v4 (IpAddr.v4 a) = true
is_v4 (IpAddr.v6 a) = false

module _ (t : Texts) where
  -- `fire_scan_request`
  abbrev pub scan_request : String → IpAddr → ℕ → ℕ → String → ScanRequest
  scan_request role ip port server_port trace_id = record {
    client_ip = t.ip ip;
    client_port = port;
    server_port = server_port;
    role = role;
    trace_id = trace_id;
  }

longer :
    (ip port : String) → append ip (append ":" port) ≢ append "[" (append ip (append "]:" port))
longer ip port e = absurd (
    omega (
      arith,
      ap count e,
      length-append ip (append ":" port),
      length-append ":" port,
      length-append "[" (append ip (append "]:" port)),
      length-append ip (append "]:" port),
      length-append "]:" port,
    ))

picked :
    (b c : Bool) (y z : SessionRegistry)
    → b ≡ c
    → (if◌then◌else◌ {A = SessionRegistry × Bool} (b || false) (y, true) (z, false)).1 ≡ c
picked true c y z e = e
picked false c y z e = e

module _ (t : Texts) (d : IsDisplay t) where
  peer_of-socket :
      (role : String) (ip : IpAddr) (port server_port : ℕ) (trace_id : String)
      → (t.socket ip port == peer_of t.print (scan_request t role ip port server_port trace_id))
        ≡ is_v4 ip
  peer_of-socket role (IpAddr.v4 a) port server_port trace_id = (eq_iff _ _).1 (d.socket_v4 a port)
  peer_of-socket role (IpAddr.v6 a) port server_port trace_id = ground (
    arith,
    eq_iff (t.socket (IpAddr.v6 a) port)
        (peer_of t.print (scan_request t role (IpAddr.v6 a) port server_port trace_id)),
    d.socket_v6 a port,
    longer (t.ip (IpAddr.v6 a)) (t.print port),
  )

  -- Take a client of the address `ip` and `port` whose session goes by the text of that socket address,
  -- as the acceptor announces it, and is the only one of the processor. What the scanner publishes of
  -- the client, whatever its host answered, is stored by the processor exactly if the address is IPv4:
  -- of an IPv6 client the identity never reaches its session, since the scanner writes its peer
  -- without the brackets.
  pub publish-stored :
      (role : String) (ip : IpAddr) (port server_port : ℕ) (trace_id : String)
      (ident : Option String) (o : Origin) (s : Session)
      → o.peer ≡ t.socket ip port
      → (store_metadata_if_session_active
          (metadata_of t.print (scan_request t role ip port server_port trace_id) ident)
          (register o s empty)).1
        ≡ is_v4 ip
  unfolding store_metadata_if_session_active register
  publish-stored role ip port server_port trace_id ident o s e = picked _ (is_v4 ip) _ _ (
      ap (λ p. p == peer_of t.print (scan_request t role ip port server_port trace_id)) e
      ∙ peer_of-socket role ip port server_port trace_id)
