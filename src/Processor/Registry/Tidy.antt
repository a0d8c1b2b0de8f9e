-- ===== src/Processor/Registry/Tidy.antt =====
-- processor.rs: ids of sessions, and metadata that is kept only for peers with a session.
use text.Mathlib.TextEquality.{eq_iff}
use five_nines_echo.Base.{
  ℕ, suc, ◌+◌, ◌^◌, ◌≤◌, ◌<◌, String, Bool, any, map, ◌++◌, Option, none, string_key, nat_key, ◌==◌,
  ◌≡◌, refl, true, false, ◌||◌, some, List, [], ◌∷◌, All, All-insert, All-remove, Unique,
  insert-Unique, remove-Unique, insert, remove, lookup, contains_key, contains_key-insert, arith,
  Bool-cases, inl, inr,
}
use five_nines_echo.Base.Words.{u64}
use five_nines_echo.Control.{SessionMetadata}
use five_nines_echo.Handoff.{SessionHandoff}
use five_nines_echo.Processor.Session.{Session, Origin}
use five_nines_echo.Processor.Registry.{
  SessionHandle, SessionRegistry, has_session, register, end_session, flush_failed,
  store_metadata_if_session_active,
}
use five_nines_echo.Processor.Upgrade.{Answer, reinstate, drain_session_handoffs}

-- The peer is one of these.
abbrev pub names : String → List String → Bool
names peer peers = any (λ p. p == peer) peers

abbrev pub peer_of : ℕ × SessionHandle → String
peer_of entry = entry.1.peer

abbrev pub Below : ℕ → ℕ × SessionHandle → Type 0
Below n entry = entry.0 < n

-- Of a registry that had at most `n` sessions: each id was given once, and metadata belong to peers
-- with a session, or to those that are `gone`.
pub record IsTidy (n : ℕ) (gone : List String) (reg : SessionRegistry) : Type 0 where
  pub few : reg.next_id ≤ n
  pub given : All (Below reg.next_id) reg.sessions
  pub once : Unique reg.sessions
  pub single : Unique reg.metadata
  pub used :
      (peer : String)
      → contains_key peer reg.metadata ≡ true
      → (has_session peer reg.sessions || names peer gone) ≡ true

pub Below-suc : (n : ℕ) (m : List (ℕ × SessionHandle)) → All (Below n) m → All (Below (suc n)) m
Below-suc n [] h = tt
Below-suc n (x ∷ m) h = (omega arith, Below-suc n m h.1)

pub Below-absent :
    (n : ℕ) (m : List (ℕ × SessionHandle)) → All (Below n) m → contains_key n m ≡ false
Below-absent n [] h = refl
Below-absent n (x ∷ m) h = ground (arith, Below-absent n m h.1)

has_session-insert :
    (peer : String) (n : ℕ) (h : SessionHandle) (m : List (ℕ × SessionHandle))
    → contains_key n m ≡ false
    → has_session peer (insert n h m) ≡ (has_session peer m || h.peer == peer)
has_session-insert peer n h [] a = ground arith
has_session-insert peer n h ((i, g) ∷ m) a = ground (arith, has_session-insert peer n h m)

has_session-remove :
    (peer : String) (n : ℕ) (h : SessionHandle) (m : List (ℕ × SessionHandle))
    → lookup n m ≡ some h
    → (h.peer == peer) ≡ false
    → has_session peer m ≡ true
    → has_session peer (remove n m) ≡ true
has_session-remove peer n h [] l d t = cc
has_session-remove peer n h ((i, g) ∷ m) l d t = ground (arith, has_session-remove peer n h m)

contains_key-remove :
    (peer key : String) (m : List (String × SessionMetadata))
    → Unique m
    → contains_key peer (remove key m) ≡ true
    → ((key == peer) ≡ false) × (contains_key peer m ≡ true)
contains_key-remove peer key [] u t = cc
contains_key-remove peer key ((i, w) ∷ m) u t =
    ground (arith, eq_iff i key, eq_iff i peer, eq_iff key peer, contains_key-remove peer key m u.1)

pub register-IsTidy :
    (o : Origin) (s : Session) (reg : SessionRegistry) (n : ℕ) (gone : List String)
    → suc n < 2 ^ 64
    → IsTidy n gone reg
    → IsTidy (suc n) gone (register o s reg)
unfolding register
register-IsTidy o s reg n gone b t =
    let fresh : contains_key reg.next_id reg.sessions ≡ false =
      Below-absent reg.next_id reg.sessions t.given in
    let h : SessionHandle = record { peer = o.peer; origin = o; session = s } in
    let next : u64 (reg.next_id + 1) ≡ suc reg.next_id = omega (arith, t.few) in
    record {
      few = omega (arith, t.few);
      given = rw next (
          All-insert (Below (suc reg.next_id)) reg.next_id h reg.sessions (omega arith)
            (Below-suc reg.next_id reg.sessions t.given));
      once = insert-Unique reg.next_id h reg.sessions t.once;
      single = t.single;
      used = λ peer held.
          ground
            (arith, has_session-insert peer reg.next_id h reg.sessions fresh, t.used peer held);
    }

pub register-has_session :
    (o : Origin) (s : Session) (reg : SessionRegistry) (peer : String)
    → All (Below reg.next_id) reg.sessions
    → (o.peer == peer) ≡ true
    → has_session peer (register o s reg).sessions ≡ true
unfolding register
register-has_session o s reg peer b e = ground (
  arith,
  has_session-insert peer reg.next_id (record { peer = o.peer; origin = o; session = s })
      reg.sessions (Below-absent reg.next_id reg.sessions b),
)

-- A peer other than that of a session that is removed.
other_used :
    (id : ℕ) (h : SessionHandle) (sessions : List (ℕ × SessionHandle)) (peer : String)
    (excused : Bool)
    → lookup id sessions ≡ some h
    → (h.peer == peer) ≡ false
    → (has_session peer sessions || excused) ≡ true
    → (has_session peer (remove id sessions) || excused) ≡ true
other_used id h sessions peer true l d t = ground arith
other_used id h sessions peer false l d t =
    ground (arith, has_session-remove peer id h sessions l d)

-- The sessions of an ended session's peer decide on its metadata.
ended-used :
    (id : ℕ) (h : SessionHandle) (reg : SessionRegistry) (n : ℕ) (gone : List String)
    (peer : String)
    → IsTidy n gone reg
    → lookup id reg.sessions ≡ some h
    → contains_key peer (end_session id h.peer reg).metadata ≡ true
    → (has_session peer (remove id reg.sessions) || names peer gone) ≡ true
unfolding end_session
ended-used id h reg n gone peer t l held =
    elim (Bool-cases (has_session h.peer (remove id reg.sessions))) [
      | inl still ↦ elim (Bool-cases (h.peer == peer)) [
        | inl same ↦ ground (arith, eq_iff h.peer peer)
        | inr other ↦
            other_used id h reg.sessions peer (names peer gone) l other
              (t.used peer (rw still at held))
      ]
      | inr none_left ↦
          let left = contains_key-remove peer h.peer reg.metadata t.single (rw none_left at held) in
          other_used id h reg.sessions peer (names peer gone) l left.0 (t.used peer left.1)
    ]

pub end_session-IsTidy :
    (id : ℕ) (h : SessionHandle) (reg : SessionRegistry) (n : ℕ) (gone : List String)
    → lookup id reg.sessions ≡ some h
    → IsTidy n gone reg
    → IsTidy n gone (end_session id h.peer reg)
unfolding end_session
end_session-IsTidy id h reg n gone l t = record {
  few = t.few;
  given = All-remove (Below reg.next_id) id reg.sessions t.given;
  once = remove-Unique id reg.sessions t.once;
  single = ground (arith, remove-Unique h.peer reg.metadata t.single, t.single);
  used = λ peer held. ended-used id h reg n gone peer t l held;
}

pub flush_failed-IsTidy :
    (id : ℕ) (h : SessionHandle) (reg : SessionRegistry) (n : ℕ) (gone : List String)
    → lookup id reg.sessions ≡ some h
    → IsTidy n gone reg
    → IsTidy n (h.peer ∷ gone) (flush_failed id reg)
unfolding flush_failed
flush_failed-IsTidy id h reg n gone l t = record {
  few = t.few;
  given = All-remove (Below reg.next_id) id reg.sessions t.given;
  once = remove-Unique id reg.sessions t.once;
  single = t.single;
  used = λ peer held. elim (Bool-cases (h.peer == peer)) [
    | inl same ↦ ground arith
    | inr other ↦
        ground
          (arith, other_used id h reg.sessions peer (names peer gone) l other (t.used peer held))
  ];
}

pub store_metadata-IsTidy :
    (meta : SessionMetadata) (reg : SessionRegistry) (n : ℕ) (gone : List String)
    → IsTidy n gone reg
    → IsTidy n gone (store_metadata_if_session_active meta reg).0
unfolding store_metadata_if_session_active
store_metadata-IsTidy meta reg n gone t = elim (Bool-cases (has_session meta.peer reg.sessions)) [
  | inl active ↦ rw active (record {
    few = t.few;
    given = t.given;
    once = t.once;
    single = insert-Unique meta.peer meta reg.metadata t.single;
    used = λ peer held. ground (
      arith,
      eq_iff meta.peer peer,
      contains_key-insert meta.peer peer meta reg.metadata,
      t.used peer,
    );
  })
  | inr idle ↦ rw idle t
]

names-drained :
    (peer : String) (sessions : List (ℕ × SessionHandle)) (gone : List String)
    → names peer (map peer_of sessions ++ gone) ≡ (has_session peer sessions || names peer gone)
names-drained peer [] gone = ground arith
names-drained peer (x ∷ sessions) gone = ground (arith, names-drained peer sessions gone)

pub drained-IsTidy :
    (answers : ℕ → Answer) (reg : SessionRegistry) (n : ℕ) (gone : List String)
    → IsTidy n gone reg
    → IsTidy n (map peer_of reg.sessions ++ gone) (drain_session_handoffs answers reg).0
unfolding drain_session_handoffs
drained-IsTidy answers reg n gone t = record {
  few = t.few;
  given = tt;
  once = tt;
  single = t.single;
  used = λ peer held. ground (arith, names-drained peer reg.sessions gone, t.used peer held);
}

-- What a handoff brings back of its peer's metadata.
pub reinstate-held :
    (h : SessionHandoff) (ident : Option String) (m : List (String × SessionMetadata))
    (peer : String)
    → Unique m
    → Unique (reinstate h ident m)
      × (contains_key peer (reinstate h ident m) ≡ true
          → ((h.peer == peer) || contains_key peer m) ≡ true)
reinstate-held h none m peer u = (u, λ held. ground arith)
reinstate-held h (some ident) m peer u =
    let meta : SessionMetadata = record {
      peer = h.peer;
      ident = some ident;
      trace_id = h.trace_id;
    } in
    (insert-Unique h.peer meta m u, λ held. ground (arith, contains_key-insert h.peer peer meta m))
