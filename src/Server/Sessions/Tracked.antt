-- ===== src/Server/Sessions/Tracked.antt =====
-- internal/subscription/subscription.go: the idle list beside the sessions without a stream.
use gridwell.Base.{
  ℕ, ◌+◌, ◌≤◌, ◌≡◌, refl, ap, sym, ◌∙◌, Bool, true, false, ◌||◌, List, [], ◌∷◌, ◌++◌, Option, none,
  some, if◌then◌else◌, Bytes, bytes_eq, bytes_eq_iff, bytes-Eq, lookup, insert, delete, contains,
  length, length-append, ltb, ◌==◌, compact_out, lookup-insert, lookup-delete, arith, beq_refl,
  distinct, distinct-append, distinct-compact_out, contains-append, contains-compact_out,
  distinct_head, distinct_tail, Bool-cases, is_some, inl, inr,
}
use gridwell.Server.Sessions.{
  max_idle, Session, Book, new_session, forget_oldest, rest, at_found, at, session_of, or_new,
  put_session,
}

abbrev pub is_idle : Option Session → Bool
is_idle none = false
is_idle (some s) = s.streams == 0

pub record IsTracked (m : List (Bytes × Session)) (idle : List Bytes) : Type 0 where
  pub once : distinct idle ≡ true
  pub same : (j : Bytes) → contains j idle ≡ is_idle (lookup j m)

pub stays-IsTracked :
    (m : List (Bytes × Session)) (idle : List Bytes) (id : Bytes) (s : Session)
    → (s.streams == 0) ≡ contains id idle
    → IsTracked m idle
    → IsTracked (insert id s m) idle
stays-IsTracked m idle id s e h = record {
  once = h.once;
  same = λ j. ground (arith, lookup-insert id j s m, bytes_eq_iff id j, h.same j, e);
}

pub joins-IsTracked :
    (m : List (Bytes × Session)) (idle : List Bytes) (id : Bytes) (s : Session)
    → (s.streams == 0) ≡ true
    → contains id idle ≡ false
    → IsTracked m idle
    → IsTracked (insert id s m) (idle ++ id ∷ [])
joins-IsTracked m idle id s e n h = record {
  once = distinct-append id idle n h.once;
  same = λ j.
      ground
        (arith, lookup-insert id j s m, contains-append j id idle, bytes_eq_iff id j, h.same j, e);
}

pub leaves-IsTracked :
    (m : List (Bytes × Session)) (idle : List Bytes) (id : Bytes) (s : Session)
    → (s.streams == 0) ≡ false
    → IsTracked m idle
    → IsTracked (insert id s m) (compact_out idle id)
leaves-IsTracked m idle id s e h = record {
  once = distinct-compact_out id idle h.once;
  same = λ j. ground (
    arith,
    lookup-insert id j s m,
    contains-compact_out id j idle,
    bytes_eq_iff id j,
    h.same j,
    e,
  );
}

forgets-IsTracked :
    (m : List (Bytes × Session)) (oldest : Bytes) (idle : List Bytes)
    → IsTracked m (oldest ∷ idle)
    → IsTracked (delete oldest m) idle
unfolding contains
forgets-IsTracked m oldest idle h = record {
  once = distinct_tail oldest idle h.once;
  same = λ j. ground (
    arith,
    lookup-delete oldest j m,
    bytes_eq_iff oldest j,
    h.same j,
    distinct_head oldest idle h.once,
  );
}

abbrev pub streams_of : Book → Bytes → ℕ
streams_of b id = (session_of b id).streams

-- What an operation leaves before it recounts.
pub record IsKept (b : Book) : Type 0 where
  pub tracked : IsTracked b.sessions b.idle
  pub bounded : length b.idle ≤ max_idle

forget_oldest-IsKept :
    (b : Book) (idle : List Bytes)
    → IsTracked b.sessions idle
    → length idle ≤ max_idle + 1
    → IsKept (forget_oldest b idle)
forget_oldest-IsKept b [] h l = record { tracked = h; bounded = omega arith }
forget_oldest-IsKept b (oldest ∷ idle) h l =
    elim (Bool-cases (ltb max_idle (length (oldest ∷ idle)))) [
      | inl e ↦
          rw e
            (record { tracked = forgets-IsTracked b.sessions oldest idle h; bounded = omega arith })
      | inr e ↦ rw e (record { tracked = h; bounded = ground arith })
    ]

oldest-is_idle :
    (m : List (Bytes × Session)) (oldest : Bytes) (idle : List Bytes)
    → IsTracked m (oldest ∷ idle)
    → is_idle (lookup oldest m) ≡ true
unfolding contains
oldest-is_idle m oldest idle h =
    sym (h.same oldest) ∙ ap (λ t. t || contains oldest idle) (beq_refl oldest)

-- Only a session without a stream is forgotten.
forget_oldest-streams_of :
    (b : Book) (idle : List Bytes) (j : Bytes)
    → IsTracked b.sessions idle
    → streams_of (forget_oldest b idle) j ≡ streams_of b j
forget_oldest-streams_of b [] j h = refl
forget_oldest-streams_of b (oldest ∷ idle) j h =
    elim (Bool-cases (ltb max_idle (length (oldest ∷ idle)))) [
      | inl e ↦ rw e (
          ground (
            arith,
            lookup-delete oldest j b.sessions,
            bytes_eq_iff oldest j,
            oldest-is_idle b.sessions oldest idle h,
          ))
      | inr e ↦ rw e refl
    ]

pub rest-IsKept :
    (b : Book) (id : Bytes)
    → IsTracked b.sessions (b.idle ++ id ∷ [])
    → length b.idle ≤ max_idle
    → IsKept (rest b id) × ((j : Bytes) → streams_of (rest b id) j ≡ streams_of b j)
unfolding rest
rest-IsKept b id h l = (
  forget_oldest-IsKept b (b.idle ++ id ∷ []) h (omega (arith, length-append b.idle (id ∷ []))),
  λ j. forget_oldest-streams_of b (b.idle ++ id ∷ []) j h,
)

pub put-streams_of :
    (b : Book) (id j : Bytes) (s : Session)
    → streams_of (put_session b id s) j ≡ (if bytes_eq id j then s.streams else streams_of b j)
put-streams_of b id j s = ground (arith, lookup-insert id j s b.sessions)

at_found-IsKept :
    (b : Book) (id : Bytes) (found : Option Session)
    → lookup id b.sessions ≡ found
    → IsKept b
    → IsKept (at_found b id found)
      × ((j : Bytes) → streams_of (at_found b id found) j ≡ streams_of b j)
at_found-IsKept b id (some s) e h = (h, λ j. refl)
at_found-IsKept b id none e h =
    let gone = h.tracked.same id ∙ ap is_idle e in
    let b1 = put_session b id new_session in
    let (k, same) =
      rest-IsKept b1 id (joins-IsTracked b.sessions b.idle id new_session refl gone h.tracked)
        h.bounded in
    (k, λ j. same j ∙ put-streams_of b id j new_session ∙ ground (arith, bytes_eq_iff id j, e))

pub at-IsKept :
    (b : Book) (id : Bytes)
    → IsKept b
    → IsKept (at b id) × ((j : Bytes) → streams_of (at b id) j ≡ streams_of b j)
unfolding at
at-IsKept b id h = at_found-IsKept b id (lookup id b.sessions) refl h

-- The session that was just added is not the one forgotten.
forget_oldest-keeps :
    (b : Book) (idle : List Bytes) (id : Bytes)
    → contains id (forget_oldest b (idle ++ id ∷ [])).idle ≡ true
unfolding contains
forget_oldest-keeps b [] id = ap (λ t. t || false) (beq_refl id)
forget_oldest-keeps b (oldest ∷ idle) id =
    elim (Bool-cases (ltb max_idle (length (oldest ∷ (idle ++ id ∷ []))))) [
      | inl e ↦ rw e (ground (arith, contains-append id id idle, beq_refl id))
      | inr e ↦ rw e (ground (arith, contains-append id id idle, beq_refl id))
    ]

at_found-present :
    (b : Book) (id : Bytes) (found : Option Session)
    → lookup id b.sessions ≡ found
    → IsKept b
    → is_some (lookup id (at_found b id found).sessions) ≡ true
unfolding rest
at_found-present b id (some s) e h = ap is_some e
at_found-present b id none e h =
    let k = (at_found-IsKept b id none e h).0 in
    let b1 = put_session b id new_session in
    idle_present (lookup id (rest b1 id).sessions)
      (sym (k.tracked.same id) ∙ forget_oldest-keeps b1 b.idle id)
  where
    idle_present : (o : Option Session) → is_idle o ≡ true → is_some o ≡ true
    idle_present none e = cc
    idle_present (some s) e = refl

-- What is in the book has a stream or is idle.
pub at-idle_iff :
    (b : Book) (id : Bytes) → IsKept b → (streams_of (at b id) id == 0) ≡ contains id (at b id).idle
unfolding at
at-idle_iff b id h =
    let b1 = at_found b id (lookup id b.sessions) in
    of_present (lookup id b1.sessions) (at_found-present b id (lookup id b.sessions) refl h)
    ∙ sym ((at-IsKept b id h).0.tracked.same id)
  where
    of_present : (o : Option Session) → is_some o ≡ true → ((or_new o).streams == 0) ≡ is_idle o
    of_present none e = cc
    of_present (some s) e = refl

forget_oldest-union : (b : Book) (idle : List Bytes) → (forget_oldest b idle).union ≡ b.union
forget_oldest-union b [] = refl
forget_oldest-union b (oldest ∷ idle) = elim (Bool-cases (ltb max_idle (length (oldest ∷ idle)))) [
  | inl e ↦ rw e refl
  | inr e ↦ rw e refl
]

pub rest-union : (b : Book) (id : Bytes) → (rest b id).union ≡ b.union
unfolding rest
rest-union b id = forget_oldest-union b (b.idle ++ id ∷ [])

at_found-union :
    (b : Book) (id : Bytes) (found : Option Session) → (at_found b id found).union ≡ b.union
at_found-union b id none = rest-union (put_session b id new_session) id
at_found-union b id (some s) = refl

pub at-union : (b : Book) (id : Bytes) → (at b id).union ≡ b.union
unfolding at
at-union b id = at_found-union b id (lookup id b.sessions)
