-- ===== src/Admin/Broadcast.antt =====
-- supervisor/admin.rs, `handle_admin_request`: whom each request reaches, and what it leaves.
use five_nines_echo.Base.{
  ℕ, min, ◌≡◌, refl, String, string_key, ◌==◌, ◌||◌, if◌then◌else◌, Option, none, some, List, [],
  ◌∷◌, ◌++◌, arith,
}
use five_nines_echo.Control.{ControlMsg}
use five_nines_echo.Admin.{WorkerControlLinks, AdminState, World, Written, handle_admin_request}

-- The connection of a worker, and of all.
abbrev writer_of : String → Option ℕ → List (String × ℕ)
writer_of role none = []
writer_of role (some conn) = (role, conn) ∷ []

abbrev pub acceptors : WorkerControlLinks → List (String × ℕ)
acceptors l = writer_of "plain" l.plain.writer ++ writer_of "tls" l.tls.writer

-- To each connection its message.
abbrev pub addressed : (String → ControlMsg) → List (String × ℕ) → Written
addressed msg [] = []
addressed msg ((role, conn) ∷ rest) = (role, conn, msg role) ∷ addressed msg rest

abbrev pub shutdown_order : WorkerControlLinks → List (String × ℕ)
shutdown_order l =
    acceptors l ++ writer_of "scanner" l.scanner.writer ++ writer_of "processor" l.processor.writer

abbrev pub reload_order : WorkerControlLinks → List (String × ℕ)
reload_order l =
    writer_of "processor" l.processor.writer ++ acceptors l ++ writer_of "scanner" l.scanner.writer

-- The grace of a role: the acceptors' is the request's, the others' at most half a second.
abbrev pub grace_of : ℕ → String → ControlMsg
grace_of grace_ms role =
    if role == "plain" || role == "tls"
    then ControlMsg.shutdown grace_ms
    else ControlMsg.shutdown (min grace_ms 500)

abbrev pub NoWriters : WorkerControlLinks → Type 0
NoWriters l =
    (l.processor.writer ≡ none)
    × (l.plain.writer ≡ none)
    × (l.tls.writer ≡ none)
    × (l.scanner.writer ≡ none)

-- A shutdown is sent to every connected worker, the acceptors first, and takes the writers.
pub shutdown-NoWriters :
    (w : World) (s : AdminState) (grace_ms : ℕ)
    → let r = handle_admin_request w s (ControlMsg.shutdown grace_ms) in
      (r.written ≡ addressed (grace_of grace_ms) (shutdown_order s.links)) × NoWriters r.state.links
unfolding handle_admin_request
shutdown-NoWriters w s grace_ms = (ground arith, (refl, refl, refl, refl))

-- A drain reaches the connected acceptors only, and changes nothing; a reload reaches every connected
-- worker, whether or not the configuration loads, and leaves the links alone.
pub drain_reload-addressed :
    (w : World) (s : AdminState)
    → ((handle_admin_request w s ControlMsg.drain).written
        ≡ addressed (λ role. ControlMsg.drain) (acceptors s.links))
      × ((handle_admin_request w s ControlMsg.drain).state ≡ s)
      × ((handle_admin_request w s ControlMsg.reload).written
          ≡ addressed (λ role. ControlMsg.reload) (reload_order s.links))
      × ((handle_admin_request w s ControlMsg.reload).state.links ≡ s.links)
unfolding handle_admin_request
drain_reload-addressed w s = (ground arith, refl, ground arith, refl)
