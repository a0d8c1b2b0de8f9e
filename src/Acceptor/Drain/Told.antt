-- ===== src/Acceptor/Drain/Told.antt =====
-- acceptor/tls_drain.rs: over every run of a drainer, what it tells the supervisor is true.
use five_nines_echo.Base.{
  ℕ, ◌^◌, ◌<◌, ◌≡◌, refl, sym, ◌∙◌, inl, inr, Bool, true, false, ◌&&◌, not, List, [], ◌∷◌,
  if◌then◌else◌, get_elem?, length, count_if, count_if-le-length, map, arith, Option-cases,
}
use five_nines_echo.Acceptor.Drain.{
  TlsHandoff, DrainerEvent, Reporter, Thread, Deadline, Event, all_finished, send_drainer_event,
  load_deadline, report_deadline, may_exit, on_event, step, run_tls_drainer_child, after,
}
use five_nines_echo.Acceptor.Drain.Account.{
  has_reported, is_live, IsAccounted, drainer, live_or_reported, all_finished-reported, send-Heard,
  send-IsTrue, thread-IsAccounted,
}

module _ (can_write : DrainerEvent → Bool) (writes : (e : DrainerEvent) → can_write e ≡ true) where
  load-IsAccounted :
      (n : ℕ) (ts : List Thread) (m : ℕ) (d : Deadline) (r : Reporter) (j x : Bool)
      → IsAccounted n (drainer ts m d r j x)
      → IsAccounted n (load_deadline can_write d (drainer ts m d r j x))
  load-IsAccounted n ts m Deadline.sleeping r j x v = record {
    few = v.few;
    exact = v.exact;
    heard = v.heard;
    late = (
      omega (arith, v.exact, v.few, live_or_reported ts),
      omega (arith, v.exact, v.few, count_if-le-length is_live ts),
    );
    told = v.told;
  }
  load-IsAccounted n ts m (Deadline.loaded k) r j x v = v
  load-IsAccounted n ts m Deadline.over r j x v = v

  deadline-IsAccounted :
      (n : ℕ) (ts : List Thread) (m : ℕ) (d : Deadline) (r : Reporter) (j x w : Bool)
      → IsAccounted n (drainer ts m d r j x)
      → IsAccounted n (report_deadline can_write w d (drainer ts m d r j x))
  deadline-IsAccounted n ts m Deadline.sleeping r j x w v = v
  deadline-IsAccounted n ts m (Deadline.loaded k) r j x w v = record {
    few = v.few;
    exact = v.exact;
    heard = λ p. omega (
      arith,
      send-Heard can_write writes w (DrainerEvent.deadline_exit k) r (count_if has_reported ts)
          v.heard p,
    );
    late = tt;
    told =
        send-IsTrue can_write writes n w (DrainerEvent.deadline_exit k) r
          (λ p. (omega (arith, v.heard p, v.late.0), v.late.1)) v.told;
  }
  deadline-IsAccounted n ts m Deadline.over r j x w v = v

  joined-IsAccounted :
      (n : ℕ) (ts : List Thread) (m : ℕ) (d : Deadline) (r : Reporter) (x w ready : Bool)
      (j' : Bool)
      → (ready ≡ true → all_finished ts ≡ true)
      → IsAccounted n (drainer ts m d r j' x)
      → IsAccounted n (
          if ready
          then drainer ts m d (send_drainer_event can_write w DrainerEvent.complete r) true x
          else drainer ts m d r j' x)
  joined-IsAccounted n ts m d r x w true j' f v = record {
    few = v.few;
    exact = v.exact;
    heard = λ p. omega (
      arith,
      send-Heard can_write writes w DrainerEvent.complete r (count_if has_reported ts) v.heard p,
    );
    late = v.late;
    told =
        send-IsTrue can_write writes n w DrainerEvent.complete r
          (λ p. v.heard p ∙ all_finished-reported ts (f refl) ∙ v.few) v.told;
  }
  joined-IsAccounted n ts m d r x w false j' f v = v

  both : (a b : Bool) → (not a && b) ≡ true → b ≡ true
  both true b e = cc
  both false b e = e

  event-IsAccounted :
      (n : ℕ) (e : Event) (ts : List Thread) (m : ℕ) (d : Deadline) (r : Reporter) (j : Bool)
      → n < 2 ^ 64
      → IsAccounted n (drainer ts m d r j false)
      → IsAccounted n (on_event can_write e (drainer ts m d r j false))
  event-IsAccounted n (Event.on_thread i e) ts m d r j b v = elim (Option-cases (get_elem? ts i)) [
    | inl h ↦ rw h v
    | inr (t, h) ↦ rw h (thread-IsAccounted can_write writes n ts m d r j false i e t b h v)
  ]
  event-IsAccounted n Event.deadline_loads ts m d r j b v = load-IsAccounted n ts m d r j false v
  event-IsAccounted n (Event.deadline_reports w) ts m d r j b v =
      deadline-IsAccounted n ts m d r j false w v
  event-IsAccounted n (Event.main_joins w) ts m d r j b v =
      joined-IsAccounted n ts m d r false w (not j && all_finished ts) j (both j (all_finished ts))
        v
  event-IsAccounted n Event.exits ts m d r j b v = exits (may_exit can_write d j)
    where
      exits :
          (may : Bool)
          → IsAccounted n (if may then drainer ts m d r j true else drainer ts m d r j false)
      exits true = record {
        few = v.few;
        exact = v.exact;
        heard = v.heard;
        late = v.late;
        told = v.told;
      }
      exits false = v

  step-IsAccounted :
      (n : ℕ) (e : Event) (ts : List Thread) (m : ℕ) (d : Deadline) (r : Reporter) (j x : Bool)
      → n < 2 ^ 64
      → IsAccounted n (drainer ts m d r j x)
      → IsAccounted n (step can_write e (drainer ts m d r j x))
  unfolding step
  step-IsAccounted n e ts m d r j true b v = v
  step-IsAccounted n e ts m d r j false b v = event-IsAccounted n e ts m d r j b v

  module _ {C : Type 0} where
    abbrev waiting : List (TlsHandoff C) → List Thread
    waiting hs = map (λ h. Thread.draining h.peer_addr) hs

    waiting_counts :
        (hs : List (TlsHandoff C))
        → (length (waiting hs) ≡ length hs)
          × (count_if is_live (waiting hs) ≡ length hs)
          × (count_if has_reported (waiting hs) ≡ 0)
    waiting_counts [] = (refl, refl, refl)
    waiting_counts (h ∷ hs) =
        let (few, live, reported) = waiting_counts hs in
        (omega (arith, few), omega (arith, live), omega (arith, reported))

    start-IsAccounted :
        (connected w : Bool) (pid generation : ℕ) (hs : List (TlsHandoff C))
        → IsAccounted (length hs) (run_tls_drainer_child can_write connected w pid generation hs)
    unfolding run_tls_drainer_child
    start-IsAccounted connected w pid generation hs = record {
      few = few;
      exact = sym live;
      heard =
          λ p. omega (arith, send-Heard can_write writes w hello fresh 0 (λ q. refl) p, reported);
      late = tt;
      told = send-IsTrue can_write writes (length hs) w hello fresh (λ p. (refl, refl)) tt;
    }
      where
        hello : DrainerEvent
        hello = DrainerEvent.hello "tls" pid generation (length hs)

        fresh : Reporter
        fresh = record { connected = connected; log = [] }

        few : length (waiting hs) ≡ length hs
        few = (waiting_counts hs).0

        live : count_if is_live (waiting hs) ≡ length hs
        live = (waiting_counts hs).1

        reported : count_if has_reported (waiting hs) ≡ 0
        reported = (waiting_counts hs).2

    -- For any sequence of steps of a drainer with fewer than 2^64 sessions, where serde writes each
    -- event: the count of remaining sessions is that of the threads that have not finished, and what
    -- the supervisor reads is true. `Hello` comes before all else and gives the number of sessions, as
    -- many or more than are ever reported as done; where `Complete` is read, each session was reported
    -- before it; where `DeadlineExit` is read, it gives at least as many sessions as were not reported
    -- before it, and no more than there are.
    pub after-IsAccounted :
        (connected w : Bool) (pid generation : ℕ) (hs : List (TlsHandoff C)) (es : List Event)
        → length hs < 2 ^ 64
        → IsAccounted
            (length hs)
            (after can_write (run_tls_drainer_child can_write connected w pid generation hs) es)
    unfolding after
    after-IsAccounted connected w pid generation hs [] b =
        start-IsAccounted connected w pid generation hs
    after-IsAccounted connected w pid generation hs (e ∷ es) b =
        let x =
          after can_write (run_tls_drainer_child can_write connected w pid generation hs) es in
        step-IsAccounted (length hs) e x.threads x.remaining x.deadline x.reporter x.joined x.exited
          b (after-IsAccounted connected w pid generation hs es b)
