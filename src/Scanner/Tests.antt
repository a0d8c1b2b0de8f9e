-- ===== src/Scanner/Tests.antt =====
-- scanner.rs: an IPv6 client.
use Prim.Native.String.{◌++◌ as append}
use five_nines_echo.Base.{ℕ, zero, suc, String, ◌≡◌, refl, some, []}
use five_nines_echo.Limits.Address.{IpAddr}
use five_nines_echo.Processor.Session.{Session, Origin, spawn_session}
use five_nines_echo.Processor.Registry.{empty, register, store_metadata_if_session_active}
use five_nines_echo.Scanner.{metadata_of}
use five_nines_echo.Scanner.Peer.{Texts, IsDisplay, scan_request, is_v4, publish-stored}

abbrev print : ℕ → String
print zero = "0"
print (suc n) = "1"

abbrev ip_text : IpAddr → String
ip_text (IpAddr.v4 a) = "127.0.0.1"
ip_text (IpAddr.v6 a) = "::1"

abbrev socket_text : IpAddr → ℕ → String
socket_text (IpAddr.v4 a) port = append "127.0.0.1" (append ":" (print port))
socket_text (IpAddr.v6 a) port = append "[" (append "::1" (append "]:" (print port)))

abbrev texts : Texts
texts = record { print = print; ip = ip_text; socket = socket_text }

texts-IsDisplay : IsDisplay texts
texts-IsDisplay = record { socket_v4 = λ a port. refl; socket_v6 = λ a port. refl }

abbrev origin : Origin
origin = record { fd = 7; peer = "[::1]:1"; connected_at_unix_ms = 0; trace_id = "t" }

abbrev session : Session
session = spawn_session [] [] 0

publish-stored_example :
    (store_metadata_if_session_active
      (metadata_of print (scan_request texts "tls" (IpAddr.v6 1) 1 7071 "t") (some "root"))
      (register origin session empty)).1
    ≡ is_v4 (IpAddr.v6 1)
publish-stored_example =
    publish-stored texts texts-IsDisplay "tls" (IpAddr.v6 1) 1 7071 "t" (some "root") origin session
      refl
