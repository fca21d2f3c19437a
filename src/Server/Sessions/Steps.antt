-- ===== src/Server/Sessions/Steps.antt =====
-- internal/subscription/subscription.go: what each operation makes of a sound book.
use gridwell.Base.{
  ℕ, ◌+◌, ◌-◌, ◌≡◌, refl, ap, sym, ◌∙◌, Bool, true, false, not, ◌&&◌, ◌||◌, List, [], ◌∷◌, ◌++◌,
  Option, none, some, if◌then◌else◌, Bytes, bytes_eq, bytes_eq_iff, bytes-Eq, lookup, insert,
  contains, ltb, ◌==◌, sorted, compact, compact_out, length-compact_out, arith, contains-sorted,
  contains-compact, compact-is_ascending, sorted-is_sorted, is_ascending, Bool-cases, inl, inr,
}
use gridwell.Server.Sessions.{
  ShownView, Session, Book, same_list, at, session_of, or_new, put_session, grids_of, counted_grids,
  recount, open_stream, close_last, close_stream, set_shown, same_view, expire_session, gone_long,
  list_sessions, sessions_at,
}
use gridwell.Server.Sessions.Tracked.{
  IsKept, streams_of, at-IsKept, at-idle_iff, rest-IsKept, put-streams_of, stays-IsTracked,
  joins-IsTracked, leaves-IsTracked, is_idle, rest-union, at-union,
}

-- Whether a session with a stream shows the grid.
abbrev pub shows : Bytes → List (Bytes × Session) → Bool
shows g [] = false
shows g ((id, s) ∷ m) = (ltb 0 s.streams && contains g (grids_of s.shown)) || shows g m

contains-concat :
    (g : Bytes) (s t : List Bytes) → contains g (s ++ t) ≡ (contains g s || contains g t)
unfolding contains
contains-concat g [] t = refl
contains-concat g (a ∷ s) t = ground (arith, contains-concat g s t)

contains-counted_grids :
    (g : Bytes) (m : List (Bytes × Session)) → contains g (counted_grids m) ≡ shows g m
unfolding contains
contains-counted_grids g [] = refl
contains-counted_grids g ((id, s) ∷ m) = elim (Bool-cases (ltb 0 s.streams)) [
  | inl e ↦ rw e (
      contains-concat g (grids_of s.shown) (counted_grids m)
      ∙ ap (λ t. contains g (grids_of s.shown) || t) (contains-counted_grids g m))
  | inr e ↦ rw e (contains-counted_grids g m)
]

same_list_sound : (s t : List Bytes) → same_list s t ≡ true → s ≡ t
same_list_sound [] [] h = refl
same_list_sound [] (b ∷ t) h = cc
same_list_sound (a ∷ s) [] h = cc
same_list_sound (a ∷ s) (b ∷ t) h =
    let p = (bytes_eq_iff a b).0 (ground arith) in
    let q = same_list_sound s t (ground arith) in λ i. p i ∷ q i

pub record IsBook (b : Book) : Type 0 where
  pub kept : IsKept b
  pub union_shows : (g : Bytes) → contains g b.union ≡ shows g b.sessions
  pub ascending : is_ascending b.union ≡ true

-- The union that the last of the calls told.
abbrev pub last_told : List Bytes → List (List Bytes) → List Bytes
last_told u [] = u
last_told u (v ∷ vs) = last_told v vs

-- What a step makes of a book: it is sound, each session has the streams it should, and whoever
-- listened knows the union.
abbrev pub Steps : Book → (Bytes → ℕ) → Book × List (List Bytes) → Type 0
Steps b streams r =
    IsBook r.0 × ((j : Bytes) → streams_of r.0 j ≡ streams j) × (last_told b.union r.1 ≡ r.0.union)

counted_union :
    (m : List (Bytes × Session)) (u : List Bytes)
    → compact (sorted (counted_grids m)) ≡ u
    → ((g : Bytes) → contains g u ≡ shows g m) × (is_ascending u ≡ true)
counted_union m u e = (
  λ g.
      ap (contains g) (sym e)
      ∙ contains-compact g (sorted (counted_grids m))
      ∙ contains-sorted g (counted_grids m)
      ∙ contains-counted_grids g m,
  ap is_ascending (sym e)
      ∙ compact-is_ascending (sorted (counted_grids m)) (sorted-is_sorted (counted_grids m)),
)

recount-Steps :
    (b : Book) (streams : Bytes → ℕ)
    → IsKept b
    → ((j : Bytes) → streams_of b j ≡ streams j)
    → Steps b streams (recount b)
unfolding recount
recount-Steps b streams h s =
    let u = compact (sorted (counted_grids b.sessions)) in
    elim (Bool-cases (same_list u b.union)) [
      | inl e ↦
          let (shown, asc) = counted_union b.sessions b.union (same_list_sound u b.union e) in
          rw e (record { kept = h; union_shows = shown; ascending = asc }, s, refl)
      | inr e ↦
          let (shown, asc) = counted_union b.sessions u refl in
          rw e (
            record {
              kept = record { tracked = h.tracked; bounded = h.bounded };
              union_shows = shown;
              ascending = asc;
            },
            s,
            refl,
          )
    ]

pub open-Steps :
    (b : Book) (id : Bytes)
    → IsBook b
    → Steps b (λ j. if bytes_eq id j then streams_of b j + 1 else streams_of b j) (open_stream b id)
unfolding open_stream
open-Steps b id h =
    let (k, same) = at-IsKept b id h.kept in
    let b1 = at b id in
    let s = session_of b1 id in
    let s' = record s { streams = s.streams + 1; away = none; expired = false } in
    let b2 = record b1 { sessions = insert id s' b1.sessions; idle = compact_out b1.idle id } in
    let (book, streams, told) =
      recount-Steps b2 (λ j. if bytes_eq id j then streams_of b j + 1 else streams_of b j)
        (record {
          tracked = leaves-IsTracked b1.sessions b1.idle id s' (ground arith) k.tracked;
          bounded = omega (arith, length-compact_out id b1.idle, k.bounded);
        })
        (λ j. put-streams_of b1 id j s' ∙ ground (arith, bytes_eq_iff id j, same j, same id)) in
    (book, streams, ap (λ u. last_told u (recount b2).1) (sym (at-union b id)) ∙ told)

open_not_idle : (o : Option Session) → ((or_new o).streams == 0) ≡ false → is_idle o ≡ false
open_not_idle none e = cc
open_not_idle (some s) e = e

abbrev one_less : Book → Bytes → Bytes → ℕ
one_less b id j = if bytes_eq id j then streams_of b j - 1 else streams_of b j

close_last-IsKept :
    (b : Book) (id : Bytes) (now : ℕ)
    → (streams_of b id == 0) ≡ false
    → IsKept b
    → let b' = close_last b id (session_of b id) now in
      IsKept b' × ((j : Bytes) → streams_of b' j ≡ one_less b id j) × (b'.union ≡ b.union)
close_last-IsKept b id now n h =
    let s = session_of b id in
    let gone = h.tracked.same id ∙ open_not_idle (lookup id b.sessions) n in
    elim (Bool-cases (streams_of b id == 1)) [
      | inl e ↦
          let s' = record s { streams = 0; away = some now } in
          let b1 = put_session b id s' in
          let (k, same) =
            rest-IsKept b1 id (joins-IsTracked b.sessions b.idle id s' refl gone h.tracked)
              h.bounded in
          rw e (
            k,
            λ j. same j ∙ put-streams_of b id j s' ∙ ground (arith, bytes_eq_iff id j, e),
            rest-union b1 id,
          )
      | inr e ↦
          let s' = record s { streams = s.streams - 1 } in
          rw e (
            record {
              tracked =
                  stays-IsTracked b.sessions b.idle id s' (ground (arith, e, n, gone)) h.tracked;
              bounded = h.bounded;
            },
            λ j. put-streams_of b id j s' ∙ ground (arith, bytes_eq_iff id j),
            refl,
          )
    ]

pub close-Steps :
    (b : Book) (id : Bytes) (now : ℕ) → IsBook b → Steps b (one_less b id) (close_stream b id now)
unfolding close_stream
close-Steps b id now h = elim (Bool-cases (streams_of b id == 0)) [
  | inl e ↦ rw e (h, λ j. ground (arith, bytes_eq_iff id j, e), refl)
  | inr e ↦
      let b' = close_last b id (session_of b id) now in
      let (k, same, union) = close_last-IsKept b id now e h.kept in
      let (book, streams, told) = recount-Steps b' (one_less b id) k same in
      rw e (book, streams, ap (λ u. last_told u (recount b').1) (sym union) ∙ told)
]

pub set-Steps :
    (b : Book) (id : Bytes) (v : ShownView) (now : ℕ)
    → IsBook b
    → Steps b (streams_of b) (set_shown b id v now)
unfolding set_shown
set-Steps b id v now h =
    let (k, same) = at-IsKept b id h.kept in
    let b1 = at b id in
    let s = session_of b1 id in
    let s' = record s { shown = some v; changed = some now } in
    let b2 = put_session b1 id s' in
    elim (Bool-cases (same_view s.shown v)) [
      | inl e ↦
          let (book, streams, told) = recount-Steps b1 (streams_of b) k same in
          rw e (book, streams, ap (λ u. last_told u (recount b1).1) (sym (at-union b id)) ∙ told)
      | inr e ↦
          let (book, streams, told) =
            recount-Steps b2 (streams_of b)
              (record {
                tracked =
                    stays-IsTracked b1.sessions b1.idle id s' (at-idle_iff b id h.kept) k.tracked;
                bounded = k.bounded;
              })
              (λ j. put-streams_of b1 id j s' ∙ ground (arith, bytes_eq_iff id j, same j)) in
          rw e (book, streams, ap (λ u. last_told u (recount b2).1) (sym (at-union b id)) ∙ told)
    ]

abbrev aged : ℕ → Option Session → Option Session
aged now none = none
aged now (some s) = some (expire_session s now)

expire_session-same :
    (s : Session) (now : ℕ)
    → ((expire_session s now).streams ≡ s.streams) × ((expire_session s now).shown ≡ s.shown)
expire_session-same s now = one (not (ltb 0 s.streams) && gone_long s.away now && not s.expired)
  where
    one :
        (t : Bool)
        → let s' = if t then record s { expired = true } else s in
          (s'.streams ≡ s.streams) × (s'.shown ≡ s.shown)
    one true = (refl, refl)
    one false = (refl, refl)

lookup-list_sessions :
    (m : List (Bytes × Session)) (now : ℕ) (j : Bytes)
    → lookup j (list_sessions m now).0 ≡ aged now (lookup j m)
unfolding list_sessions lookup
lookup-list_sessions [] now j = refl
lookup-list_sessions ((id, s) ∷ m) now j = elim (Bool-cases (bytes_eq id j)) [
  | inl e ↦ rw e refl
  | inr e ↦ rw e (lookup-list_sessions m now j)
]

shows-list_sessions :
    (g : Bytes) (m : List (Bytes × Session)) (now : ℕ) → shows g (list_sessions m now).0 ≡ shows g m
unfolding list_sessions
shows-list_sessions g [] now = refl
shows-list_sessions g ((id, s) ∷ m) now =
    let (streams, shown) = expire_session-same s now in
    ap
      (λ n.
        (ltb 0 n && contains g (grids_of (expire_session s now).shown))
        || shows g (list_sessions m now).0)
      streams
    ∙ ap (λ v. (ltb 0 s.streams && contains g (grids_of v)) || shows g (list_sessions m now).0)
        shown
    ∙ ap (λ t. (ltb 0 s.streams && contains g (grids_of s.shown)) || t)
        (shows-list_sessions g m now)

aged-same :
    (o : Option Session) (now : ℕ)
    → ((or_new (aged now o)).streams ≡ (or_new o).streams) × (is_idle (aged now o) ≡ is_idle o)
aged-same none now = (refl, refl)
aged-same (some s) now =
    let streams = (expire_session-same s now).0 in (streams, ap (λ n. n == 0) streams)

pub sessions_at-Steps :
    (b : Book) (now : ℕ) → IsBook b → Steps b (streams_of b) ((sessions_at b now).0, [])
unfolding sessions_at
sessions_at-Steps b now h = (
  record {
    kept = record {
      tracked = record {
        once = h.kept.tracked.once;
        same = λ j.
            h.kept.tracked.same j
            ∙ sym (aged-same (lookup j b.sessions) now).1
            ∙ ap is_idle (sym (lookup-list_sessions b.sessions now j));
      };
      bounded = h.kept.bounded;
    };
    union_shows = λ g. h.union_shows g ∙ sym (shows-list_sessions g b.sessions now);
    ascending = h.ascending;
  },
  λ j.
      ap (λ (o : Option Session). (or_new o).streams) (lookup-list_sessions b.sessions now j)
      ∙ (aged-same (lookup j b.sessions) now).0,
  refl,
)
