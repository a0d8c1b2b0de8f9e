-- ===== src/Link/Successor/Monitor.antt =====
-- supervisor/worker.rs, `monitor_successor`: when an adopted successor is lost, or adopted again.
use five_nines_echo.Base.{
  ℕ, ◌-◌, ◌≤◌, ◌<◌, ◌≡◌, refl, ◌⊎◌, inl, inr, Bool, true, false, Option, none, some, List, [], ◌∷◌,
  ◌++◌, leb, All, Bool-cases, arith, sym, subst,
}
use five_nines_echo.Link.Successor.{
  MonitorOutcome, Poll, Watch, newer, on_connection, on_poll, monitor_poll, or_rest, monitor,
  monitor_successor,
}
use five_nines_echo.Link.Successor.Wait.{newer_seen}

-- A poll that sees no newer generation; one that also finds no connection.
abbrev pub Still : ℕ → Poll → Type 0
Still gen p = newer gen p.last_gen ≡ none

abbrev pub Gone : ℕ → Poll → Type 0
Gone gen p = (newer gen p.last_gen ≡ none) × (p.connected ≡ false)

-- Why the loop ends, if the connection is gone since `since`.
pub data Ends (gen grace : ℕ) (since : Option ℕ) : List Poll → Option MonitorOutcome → Type 0 where
  watches : {polls : List Poll} → All (Still gen) polls → Ends gen grace since polls none
  -- the first poll that sees a newer generation
  readopts :
      (pre post : List Poll) (p : Poll) (g : ℕ)
      → All (Still gen) pre
      → p.last_gen ≡ some g
      → gen < g
      → Ends gen grace since (pre ++ p ∷ post) (some (MonitorOutcome.readopted g))
  -- a run of polls without a connection that lasts for the grace
  loses :
      (pre mid post : List Poll) (first last : Poll)
      → All (Still gen) pre
      → Gone gen first
      → All (Gone gen) mid
      → Gone gen last
      → grace ≤ last.now - first.now
      → Ends gen grace since (pre ++ first ∷ mid ++ last ∷ post) (some MonitorOutcome.lost)
  -- the same, when the run began before the polls
  runs_out :
      (mid post : List Poll) (last : Poll) (t : ℕ)
      → since ≡ some t
      → All (Gone gen) mid
      → Gone gen last
      → grace ≤ last.now - t
      → Ends gen grace since (mid ++ last ∷ post) (some MonitorOutcome.lost)

module _ (gen grace : ℕ) (p : Poll) where
  cons_connected :
      (ps : List Poll) (o : Option MonitorOutcome) {since : Option ℕ}
      → Still gen p
      → Ends gen grace none ps o
      → Ends gen grace since (p ∷ ps) o
  cons_connected _ _ s (watches all) = watches (s, all)
  cons_connected _ _ s (readopts pre post p' g all e lt) =
      readopts (p ∷ pre) post p' g (s, all) e lt
  cons_connected _ _ s (loses pre mid post first last all f m l le) =
      loses (p ∷ pre) mid post first last (s, all) f m l le
  cons_connected _ _ s (runs_out mid post last t e m l le) = cc

  cons_first :
      (ps : List Poll) (o : Option MonitorOutcome)
      → Gone gen p
      → Ends gen grace (some p.now) ps o
      → Ends gen grace none (p ∷ ps) o
  cons_first _ _ s (watches all) = watches (s.0, all)
  cons_first _ _ s (readopts pre post p' g all e lt) = readopts (p ∷ pre) post p' g (s.0, all) e lt
  cons_first _ _ s (loses pre mid post first last all f m l le) =
      loses (p ∷ pre) mid post first last (s.0, all) f m l le
  cons_first _ _ s (runs_out mid post last t e m l le) =
      loses [] mid post p last tt s m l (ground arith)

  cons-Gone :
      (ps : List Poll) (o : Option MonitorOutcome) {t : ℕ}
      → Gone gen p
      → Ends gen grace (some t) ps o
      → Ends gen grace (some t) (p ∷ ps) o
  cons-Gone _ _ s (watches all) = watches (s.0, all)
  cons-Gone _ _ s (readopts pre post p' g all e lt) = readopts (p ∷ pre) post p' g (s.0, all) e lt
  cons-Gone _ _ s (loses pre mid post first last all f m l le) =
      loses (p ∷ pre) mid post first last (s.0, all) f m l le
  cons-Gone _ _ s (runs_out mid post last t' e m l le) =
      runs_out (p ∷ mid) post last t' e (s, m) l le

monitor-Ends_connection :
    (gen grace : ℕ) (p : Poll) (ps : List Poll) (c : Bool) (since : Option ℕ) (w : Watch)
    → ((w' : Watch) → Ends gen grace w'.absent_since ps (monitor gen grace w' ps).0)
    → Still gen p
    → p.connected ≡ c
    → w.absent_since ≡ since
    → let r = on_connection grace p c since w in
      Ends gen grace since
        (p ∷ ps)
        (elim r.0 [ some outcome ↦ some outcome | none ↦ (monitor gen grace r.1 ps).0 ])
monitor-Ends_connection gen grace p ps true since w ih s e k =
    cons_connected gen grace p ps _ s (ih _)
monitor-Ends_connection gen grace p ps false none w ih s e k =
    cons_first gen grace p ps _ (s, e) (ih _)
monitor-Ends_connection gen grace p ps false (some t) w ih s e k =
    elim (Bool-cases (leb grace (p.now - t))) [
      | inl over ↦ rw over (runs_out [] ps p t refl tt (s, e) (ground arith))
      | inr within ↦ rw within (
          cons-Gone gen grace p ps _ (s, e)
            (subst (λ x. Ends gen grace x ps (monitor gen grace w ps).0) k (ih w)))
    ]

on_poll-Ends :
    (gen grace : ℕ) (p : Poll) (ps : List Poll) (w : Watch) (o : Option ℕ)
    → ((w' : Watch) → Ends gen grace w'.absent_since ps (monitor gen grace w' ps).0)
    → newer gen p.last_gen ≡ o
    → let r = on_poll grace p w o in
      Ends gen grace w.absent_since
        (p ∷ ps)
        (elim r.0 [ some outcome ↦ some outcome | none ↦ (monitor gen grace r.1 ps).0 ])
on_poll-Ends gen grace p ps w (some g) ih e =
    let s = newer_seen gen g p.last_gen e in readopts [] ps p g tt s.0 s.1
on_poll-Ends gen grace p ps w none ih e =
    monitor-Ends_connection gen grace p ps p.connected w.absent_since w ih e refl refl

elim_outcome :
    (o : Option MonitorOutcome) (w : Watch) (rest : Option MonitorOutcome × Watch)
    → (or_rest (o, w) rest).0 ≡ elim o [ some outcome ↦ some outcome | none ↦ rest.0 ]
elim_outcome none w rest = refl
elim_outcome (some outcome) w rest = refl

monitor-Ends :
    (gen grace : ℕ) (w : Watch) (polls : List Poll)
    → Ends gen grace w.absent_since polls (monitor gen grace w polls).0
unfolding monitor
monitor-Ends gen grace w [] = watches tt
monitor-Ends gen grace w (p ∷ ps) =
    let r = monitor_poll gen grace p w in
    subst (Ends gen grace w.absent_since (p ∷ ps))
      (sym (elim_outcome r.0 r.1 (monitor gen grace r.1 ps)))
      (on_poll-Ends gen grace p ps w (newer gen p.last_gen) (λ w'. monitor-Ends gen grace w' ps)
        refl)

-- `monitor_successor` adopts again at the first poll that sees a higher generation; it reports a loss
-- only at the end of a run of polls that all find no connection, for the whole grace; and it still
-- watches only if no poll saw a higher generation.
pub monitor_successor-Ends :
    (current_pid : Option ℕ) (gen grace : ℕ) (polls : List Poll)
    → Ends gen grace none polls (monitor_successor current_pid gen grace polls).0
unfolding monitor_successor
monitor_successor-Ends current_pid gen grace polls =
    monitor-Ends gen grace (record { absent_since = none; current_pid = current_pid }) polls

-- A poll at which the grace from `t` is over.
abbrev pub Over : ℕ → ℕ → List Poll → Type 0
Over grace t [] = ⊥
Over grace t (p ∷ ps) = (grace ≤ p.now - t) ⊎ Over grace t ps

later :
    (grace t : ℕ) (p : Poll) (ps : List Poll)
    → leb grace (p.now - t) ≡ false
    → Over grace t (p ∷ ps)
    → Over grace t ps
later grace t p ps before (inl h) = ground arith
later grace t p ps before (inr h) = h

monitor_loses :
    (gen grace : ℕ) (pid : Option ℕ) (t : ℕ) (polls : List Poll)
    → All (Gone gen) polls
    → Over grace t polls
    → (monitor gen grace (record { absent_since = some t; current_pid = pid }) polls).0
      ≡ some MonitorOutcome.lost
unfolding monitor
monitor_loses gen grace pid t [] gone over = elim over [ ]
monitor_loses gen grace pid t (p ∷ ps) gone over = rw (gone.0.0) (
    rw (gone.0.1) (elim (Bool-cases (leb grace (p.now - t))) [
      | inl past ↦ rw past refl
      | inr before ↦
          rw before (monitor_loses gen grace pid t ps gone.1 (later grace t p ps before over))
    ]))

-- From any state of the loop in which the connection was there, a connection that is then gone at
-- every poll, while no higher generation shows, is reported lost once the polls last for the grace.
pub monitor_lost :
    (gen grace : ℕ) (w : Watch) (first : Poll) (polls : List Poll)
    → w.absent_since ≡ none
    → All (Gone gen) (first ∷ polls)
    → Over grace first.now polls
    → (monitor gen grace w (first ∷ polls)).0 ≡ some MonitorOutcome.lost
unfolding monitor
monitor_lost gen grace w first polls e gone over =
    rw (gone.0.0)
      (rw (gone.0.1) (rw e (monitor_loses gen grace w.current_pid first.now polls gone.1 over)))
