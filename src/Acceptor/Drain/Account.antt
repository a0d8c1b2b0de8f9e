-- ===== src/Acceptor/Drain/Account.antt =====
-- acceptor/tls_drain.rs: what the supervisor reads of a drainer is true of its sessions.
use five_nines_echo.Base.{
  ℕ, suc, String, ◌+◌, ◌^◌, ◌≤◌, ◌<◌, ◌≡◌, refl, ap, ◌∙◌, Bool, true, false, not, some, List, [],
  ◌∷◌, if◌then◌else◌, get_elem?, set, length, length-set, count_if, count_if-set,
  count_if-le-length, arith,
}
use five_nines_echo.Limits.Session.{fetch_sub_one}
use five_nines_echo.Acceptor.Drain.{
  SessionOutcome, DrainerEvent, Reporter, Thread, Deadline, Drainer, ThreadStep, is_finished,
  all_finished, send_on, send_drainer_event, step_thread,
}

-- The threads that have reported their session, and those that still count as remaining.
abbrev pub has_reported : Thread → Bool
has_reported Thread.reported = true
has_reported Thread.finished = true
has_reported (Thread.draining peer) = false
has_reported (Thread.ended peer outcome) = false

abbrev pub is_live : Thread → Bool
is_live t = not (is_finished t)

abbrev pub is_done : DrainerEvent → Bool
is_done (DrainerEvent.session_done peer outcome) = true
is_done (DrainerEvent.hello role pid generation sessions) = false
is_done DrainerEvent.complete = false
is_done (DrainerEvent.deadline_exit r) = false

abbrev pub dones : List DrainerEvent → ℕ
dones log = count_if is_done log

-- What an event says of `n` sessions after those that came before it.
abbrev pub Fits : ℕ → DrainerEvent → List DrainerEvent → Type 0
Fits n (DrainerEvent.hello role pid generation sessions) log = (sessions ≡ n) × (log ≡ [])
Fits n (DrainerEvent.session_done peer outcome) log = suc (dones log) ≤ n
Fits n DrainerEvent.complete log = dones log ≡ n
Fits n (DrainerEvent.deadline_exit r) log = (n ≤ r + dones log) × (r ≤ n)

abbrev pub IsTrue : ℕ → List DrainerEvent → Type 0
IsTrue n [] = Unit
IsTrue n (e ∷ log) = Fits n e log × IsTrue n log

-- The count that the deadline thread has read.
abbrev pub Late : ℕ → List Thread → Deadline → Type 0
Late n ts (Deadline.loaded r) = (n ≤ r + count_if has_reported ts) × (r ≤ n)
Late n ts Deadline.sleeping = Unit
Late n ts Deadline.over = Unit

pub record IsAccounted (n : ℕ) (x : Drainer) : Type 0 where
  pub few : length x.threads ≡ n
  pub exact : x.remaining ≡ count_if is_live x.threads
  pub heard : x.reporter.connected ≡ true → dones x.reporter.log ≡ count_if has_reported x.threads
  pub late : Late n x.threads x.deadline
  pub told : IsTrue n x.reporter.log

pub live_or_reported :
    (ts : List Thread) → length ts ≤ count_if is_live ts + count_if has_reported ts
live_or_reported [] = omega arith
live_or_reported (Thread.reported ∷ ts) = omega (arith, live_or_reported ts)
live_or_reported (Thread.finished ∷ ts) = omega (arith, live_or_reported ts)
live_or_reported (Thread.draining peer ∷ ts) = omega (arith, live_or_reported ts)
live_or_reported (Thread.ended peer outcome ∷ ts) = omega (arith, live_or_reported ts)

pub all_finished-reported :
    (ts : List Thread) → all_finished ts ≡ true → count_if has_reported ts ≡ length ts
all_finished-reported [] e = refl
all_finished-reported (Thread.reported ∷ ts) e = cc
all_finished-reported (Thread.finished ∷ ts) e = omega (arith, all_finished-reported ts e)
all_finished-reported (Thread.draining peer ∷ ts) e = cc
all_finished-reported (Thread.ended peer outcome ∷ ts) e = cc

late-mono :
    (n : ℕ) (ts us : List Thread) (d : Deadline)
    → count_if has_reported ts ≤ count_if has_reported us
    → Late n ts d
    → Late n us d
late-mono n ts us (Deadline.loaded r) le h = (omega (arith, h.0), h.1)
late-mono n ts us Deadline.sleeping le h = tt
late-mono n ts us Deadline.over le h = tt

abbrev pub drainer : List Thread → ℕ → Deadline → Reporter → Bool → Bool → Drainer
drainer ts m d r j x = record {
  threads = ts;
  remaining = m;
  deadline = d;
  reporter = r;
  joined = j;
  exited = x;
}

-- A thread that goes on and neither reports nor lowers the count.
kept :
    (n : ℕ) (ts : List Thread) (m : ℕ) (d : Deadline) (r : Reporter) (j x : Bool) (i : ℕ)
    (t t' : Thread)
    → get_elem? ts i ≡ some t
    → is_live t' ≡ is_live t
    → has_reported t' ≡ has_reported t
    → IsAccounted n (drainer ts m d r j x)
    → IsAccounted n (drainer (set ts i t') m d r j x)
kept n ts m d r j x i t t' e l q v = record {
  few = length-set ts i t' ∙ v.few;
  exact = ground (arith, v.exact, l, count_if-set is_live ts i t' e);
  heard = λ p. ground (arith, v.heard p, q, count_if-set has_reported ts i t' e);
  late =
      late-mono n ts (set ts i t') d (ground (arith, q, count_if-set has_reported ts i t' e))
        v.late;
  told = v.told;
}

module _ (can_write : DrainerEvent → Bool) (writes : (e : DrainerEvent) → can_write e ≡ true) where
  -- A report is in the log if the stream still holds after it.
  abbrev Heard : ℕ → Reporter → Type 0
  Heard k r = r.connected ≡ true → dones r.log ≡ k

  send_on-Heard :
      (c w : Bool) (e : DrainerEvent) (log : List DrainerEvent) (k : ℕ)
      → (c ≡ true → dones log ≡ k)
      → Heard ((if is_done e then 1 else 0) + k) (send_on can_write c w e log)
  send_on-Heard true true e log k h = λ p. ap (λ m. (if is_done e then 1 else 0) + m) (h refl)
  send_on-Heard true false e log k h = λ p. cc
  send_on-Heard false w e log k h = λ p. cc

  send_on-IsTrue :
      (n : ℕ) (c w : Bool) (e : DrainerEvent) (log : List DrainerEvent)
      → (c ≡ true → Fits n e log)
      → IsTrue n log
      → IsTrue n (send_on can_write c w e log).log
  send_on-IsTrue n true true e log f h = (f refl, h)
  send_on-IsTrue n true false e log f h = h
  send_on-IsTrue n false w e log f h = h

  pub send-Heard :
      (w : Bool) (e : DrainerEvent) (r : Reporter) (k : ℕ)
      → Heard k r
      → Heard ((if is_done e then 1 else 0) + k) (send_drainer_event can_write w e r)
  unfolding send_drainer_event
  send-Heard w e r k h = rw (writes e) (send_on-Heard r.connected w e r.log k h)

  pub send-IsTrue :
      (n : ℕ) (w : Bool) (e : DrainerEvent) (r : Reporter)
      → (r.connected ≡ true → Fits n e r.log)
      → IsTrue n r.log
      → IsTrue n (send_drainer_event can_write w e r).log
  unfolding send_drainer_event
  send-IsTrue n w e r f h = rw (writes e) (send_on-IsTrue n r.connected w e r.log f h)

  reported-IsAccounted :
      (n : ℕ) (ts : List Thread) (m : ℕ) (d : Deadline) (r : Reporter) (j x : Bool) (i : ℕ)
      (peer : String) (outcome : SessionOutcome) (w : Bool)
      → get_elem? ts i ≡ some (Thread.ended peer outcome)
      → IsAccounted n (drainer ts m d r j x)
      → IsAccounted n (
          drainer
            (set ts i Thread.reported)
            m
            d
            (send_drainer_event can_write w (DrainerEvent.session_done peer outcome) r)
            j
            x)
  reported-IsAccounted n ts m d r j x i peer outcome w e v = record {
    few = length-set ts i Thread.reported ∙ v.few;
    exact = omega (arith, v.exact, count_if-set is_live ts i Thread.reported e);
    heard = λ p. omega (
      arith,
      send-Heard w (DrainerEvent.session_done peer outcome) r (count_if has_reported ts) v.heard p,
      counted,
    );
    late = late-mono n ts (set ts i Thread.reported) d (omega (arith, counted)) v.late;
    told =
        send-IsTrue n w (DrainerEvent.session_done peer outcome) r
          (λ p. omega (
            arith,
            v.heard p,
            counted,
            v.few,
            length-set ts i Thread.reported,
            count_if-le-length has_reported (set ts i Thread.reported),
          ))
          v.told;
  }
    where
      counted : count_if has_reported (set ts i Thread.reported) + 0 ≡ count_if has_reported ts + 1
      counted = count_if-set has_reported ts i Thread.reported e

  subtracted-IsAccounted :
      (n : ℕ) (ts : List Thread) (m : ℕ) (d : Deadline) (r : Reporter) (j x : Bool) (i : ℕ)
      → n < 2 ^ 64
      → get_elem? ts i ≡ some Thread.reported
      → IsAccounted n (drainer ts m d r j x)
      → IsAccounted n (drainer (set ts i Thread.finished) (fetch_sub_one m) d r j x)
  subtracted-IsAccounted n ts m d r j x i b e v = record {
    few = length-set ts i Thread.finished ∙ v.few;
    exact = omega (
      arith,
      b,
      v.exact,
      v.few,
      count_if-le-length is_live ts,
      count_if-set is_live ts i Thread.finished e,
    );
    heard = λ p. omega (arith, v.heard p, count_if-set has_reported ts i Thread.finished e);
    late =
        late-mono n ts (set ts i Thread.finished) d
          (omega (arith, count_if-set has_reported ts i Thread.finished e)) v.late;
    told = v.told;
  }

  pub thread-IsAccounted :
      (n : ℕ) (ts : List Thread) (m : ℕ) (d : Deadline) (r : Reporter) (j x : Bool) (i : ℕ)
      (e : ThreadStep) (t : Thread)
      → n < 2 ^ 64
      → get_elem? ts i ≡ some t
      → IsAccounted n (drainer ts m d r j x)
      → IsAccounted n (step_thread can_write i e (some t) (drainer ts m d r j x))
  thread-IsAccounted n ts m d r j x i (ThreadStep.drained outcome) (Thread.draining peer) b e v =
      kept n ts m d r j x i (Thread.draining peer) (Thread.ended peer outcome) e refl refl v
  thread-IsAccounted n ts m d r j x i (ThreadStep.drained o) (Thread.ended peer outcome) b e v =
      kept n ts m d r j x i (Thread.ended peer outcome) (Thread.ended peer outcome) e refl refl v
  thread-IsAccounted n ts m d r j x i (ThreadStep.drained o) Thread.reported b e v =
      kept n ts m d r j x i Thread.reported Thread.reported e refl refl v
  thread-IsAccounted n ts m d r j x i (ThreadStep.drained o) Thread.finished b e v =
      kept n ts m d r j x i Thread.finished Thread.finished e refl refl v
  thread-IsAccounted n ts m d r j x i (ThreadStep.reports w) (Thread.draining peer) b e v =
      kept n ts m d r j x i (Thread.draining peer) (Thread.draining peer) e refl refl v
  thread-IsAccounted n ts m d r j x i (ThreadStep.reports w) (Thread.ended peer outcome) b e v =
      reported-IsAccounted n ts m d r j x i peer outcome w e v
  thread-IsAccounted n ts m d r j x i (ThreadStep.reports w) Thread.reported b e v =
      kept n ts m d r j x i Thread.reported Thread.reported e refl refl v
  thread-IsAccounted n ts m d r j x i (ThreadStep.reports w) Thread.finished b e v =
      kept n ts m d r j x i Thread.finished Thread.finished e refl refl v
  thread-IsAccounted n ts m d r j x i ThreadStep.subtracts (Thread.draining peer) b e v =
      kept n ts m d r j x i (Thread.draining peer) (Thread.draining peer) e refl refl v
  thread-IsAccounted n ts m d r j x i ThreadStep.subtracts (Thread.ended peer outcome) b e v =
      kept n ts m d r j x i (Thread.ended peer outcome) (Thread.ended peer outcome) e refl refl v
  thread-IsAccounted n ts m d r j x i ThreadStep.subtracts Thread.reported b e v =
      subtracted-IsAccounted n ts m d r j x i b e v
  thread-IsAccounted n ts m d r j x i ThreadStep.subtracts Thread.finished b e v =
      kept n ts m d r j x i Thread.finished Thread.finished e refl refl v
