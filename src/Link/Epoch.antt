-- ===== src/Link/Epoch.antt =====
-- supervisor/control.rs, `accept_control`: the link belongs to the newest connection.
use five_nines_echo.Base.{
  ℕ, suc, ◌<◌, ◌^◌, ◌≡◌, refl, subst, sym, ◌∙◌, ◌⊎◌, inl, inr, Bool, true, false, Option, none,
  some, List, [], ◌∷◌, nat_beq, nat_key, ==_refl, lookup, insert, All, lookup-insert, All-insert,
  All-lookup, Bool-cases, arith,
}
use five_nines_echo.Base.Words.{u64}
use five_nines_echo.Auth.{AuthError, check_peer}
use five_nines_echo.Control.{WorkerStatus}
use five_nines_echo.Link.{WorkerLink, install, status_report, teardown, query_begin}
use five_nines_echo.Link.Connections.{
  Reader, System, Event, accept, accept_checked, report_on, ended, end_reader, step, after,
}

-- A reader's epoch is the wrapped number of connections accepted up to its own.
abbrev pub Dated : ℕ → ℕ × Reader → Type 0
Dated n (conn, r) = (conn < n) × (r.my_epoch ≡ u64 (suc conn))

-- The writer is that of the newest connection, whose reader still reads.
abbrev pub Newest : System → Option ℕ → Type 0
Newest s none = Unit
Newest s (some conn) =
    (suc conn ≡ s.accepted) × ((r : Reader) × (lookup conn s.readers ≡ some r) × (r.reading ≡ true))

pub record Owned (s : System) : Type 0 where
  pub counted : s.link.conn_epoch ≡ u64 s.accepted
  pub dated : All (Dated s.accepted) s.readers
  pub newest : Newest s s.link.writer

Dated-weaken : (n : ℕ) (m : List (ℕ × Reader)) → All (Dated n) m → All (Dated (suc n)) m
Dated-weaken n [] h = h
Dated-weaken n ((c, r) ∷ m) h = ((omega (arith, h.0.0), h.0.1), Dated-weaken n m h.1)

abbrev fresh : System → Reader
fresh s = record { my_epoch = (install s.accepted s.link).conn_epoch; reading = true }

accept-Owned : (s : System) → Owned s → Owned (accept s)
accept-Owned s v = record {
  counted = omega (arith, v.counted);
  dated =
      All-insert (Dated (suc s.accepted)) s.accepted (fresh s) s.readers
        (omega arith, omega (arith, v.counted)) (Dated-weaken s.accepted s.readers v.dated);
  newest = (
    refl,
    (
      fresh s,
      lookup-insert s.accepted s.accepted (fresh s) s.readers ∙ rw (==_refl s.accepted),
      refl,
    ),
  );
}

-- What no longer has a writer, or still has the same one, is still owned.
relinked-Owned :
    (s : System) (l : WorkerLink)
    → Owned s
    → l.conn_epoch ≡ s.link.conn_epoch
    → (l.writer ≡ none) ⊎ (l.writer ≡ s.link.writer)
    → Owned (record s { link = l })
relinked-Owned s l v e (inl gone) = record {
  counted = e ∙ v.counted;
  dated = v.dated;
  newest = subst (Newest s) (sym gone) tt;
}
relinked-Owned s l v e (inr same) = record {
  counted = e ∙ v.counted;
  dated = v.dated;
  newest = subst (Newest s) (sym same) v.newest;
}

ended-Dated :
    (s : System) (conn : ℕ) (r : Reader)
    → Owned s
    → lookup conn s.readers ≡ some r
    → All (Dated s.accepted) (insert conn (ended r) s.readers)
ended-Dated s conn r v e =
    All-insert (Dated s.accepted) conn (ended r) s.readers
      (All-lookup (Dated s.accepted) conn s.readers v.dated e) v.dated

-- The end of a connection other than the writer's is no concern of the writer's.
other-Newest :
    (s : System) (conn : ℕ) (r : Reader) (o : Option ℕ)
    → (o ≡ some conn → ⊥)
    → Newest s o
    → Newest (record s { readers = insert conn (ended r) s.readers }) o
other-Newest s conn r none ne h = tt
other-Newest s conn r (some w) ne h =
    let other : nat_beq conn w ≡ false = ground (arith, ne) in
    (h.0, (h.1.0, lookup-insert conn w (ended r) s.readers ∙ rw other h.1.1, h.1.2))

-- A reader whose epoch is not the link's is not the writer's.
not_mine :
    (s : System) (conn : ℕ) (r : Reader)
    → Owned s
    → lookup conn s.readers ≡ some r
    → nat_beq s.link.conn_epoch r.my_epoch ≡ false
    → s.link.writer ≡ some conn
    → ⊥
not_mine s conn r v e stale w =
    let newest : Newest s (some conn) = subst (Newest s) w v.newest in
    ground (arith, newest.0, v.counted, (All-lookup (Dated s.accepted) conn s.readers v.dated e).1)

end_reader-Owned :
    (s : System) (conn : ℕ) (r : Reader)
    → Owned s
    → lookup conn s.readers ≡ some r
    → Owned (record {
      link = teardown r.my_epoch s.link;
      readers = insert conn (ended r) s.readers;
      accepted = s.accepted;
    })
end_reader-Owned s conn r v e = elim (Bool-cases (nat_beq s.link.conn_epoch r.my_epoch)) [
  | inl mine ↦
      rw mine (record { counted = v.counted; dated = ended-Dated s conn r v e; newest = tt })
  | inr stale ↦ rw stale (record {
    counted = v.counted;
    dated = ended-Dated s conn r v e;
    newest = other-Newest s conn r s.link.writer (not_mine s conn r v e stale) v.newest;
  })
]

accept_checked-Owned : (s : System) (r : AuthError ⊎ ℕ) → Owned s → Owned (accept_checked s r)
accept_checked-Owned s (inl e) v = v
accept_checked-Owned s (inr uid) v = accept-Owned s v

report_on-Owned :
    (s : System) (status : WorkerStatus) (o : Option Reader)
    → Owned s
    → Owned (report_on s status o)
report_on-Owned s status none v = v
report_on-Owned s status (some r) v = elim (Bool-cases r.reading) [
  | inl on ↦ rw on (relinked-Owned s (status_report status s.link).0 v refl (inr refl))
  | inr off ↦ rw off v
]

ended_or_not-Owned :
    (s : System) (conn : ℕ) (o : Option Reader)
    → Owned s
    → lookup conn s.readers ≡ o
    → Owned (end_reader s conn o)
ended_or_not-Owned s conn none v e = v
ended_or_not-Owned s conn (some r) v e = elim (Bool-cases r.reading) [
  | inl on ↦ rw on (end_reader-Owned s conn r v e)
  | inr off ↦ rw off v
]

query_begin_writer :
    (tx : ℕ) (wrote : Bool) (l : WorkerLink)
    → ((query_begin tx wrote l).0.conn_epoch ≡ l.conn_epoch)
      × ((query_begin tx wrote l).0.writer ≡ l.writer)
query_begin_writer tx wrote l = ground arith

step-Owned : (s : System) (e : Event) → Owned s → Owned (step s e)
unfolding step
step-Owned s (Event.connected peer allow) v = accept_checked-Owned s (check_peer peer allow) v
step-Owned s (Event.reported conn status) v = report_on-Owned s status (lookup conn s.readers) v
step-Owned s (Event.disconnected conn) v = ended_or_not-Owned s conn (lookup conn s.readers) v refl
step-Owned s (Event.queried tx wrote) v =
    let q = query_begin_writer tx wrote s.link in relinked-Owned s _ v q.0 (inr q.1)
step-Owned s Event.gave_up v = relinked-Owned s _ v refl (inr refl)
step-Owned s Event.drained v = v
step-Owned s Event.reloaded v = v
step-Owned s (Event.shut_down grace_ms) v = relinked-Owned s _ v refl (inl refl)
step-Owned s (Event.upgraded path) v = relinked-Owned s _ v refl (inl refl)

after-Owned : (es : List Event) → Owned (after es)
unfolding after
after-Owned [] = record { counted = refl; dated = tt; newest = tt }
after-Owned (e ∷ es) = step-Owned (after es) e (after-Owned es)

-- After any events, the link has a writer only if it is that of the newest connection and that
-- connection's reader still reads.
pub after-Newest : (es : List Event) → Newest (after es) (after es).link.writer
after-Newest es = (after-Owned es).newest

-- The link once its owner is gone.
abbrev pub cleared : WorkerLink → WorkerLink
cleared l = record l { writer = none; last_generation = none; last_pid = none }

teardown_dated :
    (s : System) (conn : ℕ) (r : Reader)
    → Owned s
    → s.accepted < 2 ^ 64
    → lookup conn s.readers ≡ some r
    → (suc conn < s.accepted → nat_beq s.link.conn_epoch r.my_epoch ≡ false)
      × (suc conn ≡ s.accepted → nat_beq s.link.conn_epoch r.my_epoch ≡ true)
teardown_dated s conn r v bound e =
    let d = All-lookup (Dated s.accepted) conn s.readers v.dated e in
    (λ older. ground (arith, d.1, v.counted), λ newest. ground (arith, d.1, v.counted))

-- After any events with fewer than 2^64 connections, the end of a connection that still reads clears
-- the link's writer, generation and pid if it is the newest connection, and leaves the link alone if
-- a newer one has been accepted.
pub disconnect-link :
    (es : List Event) (conn : ℕ) (epoch : ℕ)
    → (after es).accepted < 2 ^ 64
    → lookup conn (after es).readers ≡ some (record { my_epoch = epoch; reading = true })
    → let s = after es in
      let s' = step s (Event.disconnected conn) in
      (suc conn < s.accepted → s'.link ≡ s.link)
      × (suc conn ≡ s.accepted → s'.link ≡ cleared s.link)
unfolding step
disconnect-link es conn epoch bound e =
    let t =
      teardown_dated (after es) conn (record { my_epoch = epoch; reading = true }) (after-Owned es)
        bound e in
    (λ older. rw e (rw (t.0 older) refl), λ newest. rw e (rw (t.1 newest) refl))
