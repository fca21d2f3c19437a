-- ===== src/Server/Sessions.antt =====
-- internal/subscription/subscription.go: the node's book of what its clients show. A time is a number, and
-- none where the source has the zero time; the book's mutex makes each operation one step. An operation
-- answers the book with the unions that spread hears.
pub mod Tracked
pub mod Steps
pub mod Run
use gridwell.Base.{
  ℕ, ◌+◌, ◌-◌, Bool, true, false, not, ◌&&◌, ◌||◌, List, [], ◌∷◌, ◌++◌, Option, none, some,
  if◌then◌else◌, Bytes, bytes_eq, bytes-Eq, lookup, insert, delete, contains, length, ltb, ◌==◌,
  sorted, compact, compact_out,
}

abbrev pub max_idle : ℕ
max_idle = 16

-- Ten minutes, in the clock's nanoseconds.
abbrev away_for : ℕ
away_for = 600000000000

-- A SetViewRequest: the grids it shows, and the encoding of its other fields.
pub record ShownView : Type 0 where
  pub grids : List Bytes
  pub others : Bytes

pub record Session : Type 0 where
  pub streams : ℕ
  pub shown : Option ShownView
  pub changed : Option ℕ
  pub away : Option ℕ
  pub expired : Bool

pub record Book : Type 0 where
  pub sessions : List (Bytes × Session)
  pub idle : List Bytes
  pub union : List Bytes

-- A Session as Sessions lists it.
pub record Listed : Type 0 where
  pub id : Bytes
  pub view : ShownView
  changed_at : Option ℕ
  open_now : Bool
  away_since : Option ℕ

abbrev pub new_session : Session
new_session = record { streams = 0; shown = none; changed = none; away = none; expired = false }

abbrev pub new_book : Book
new_book = record { sessions = []; idle = []; union = [] }

abbrev pub same_list : List Bytes → List Bytes → Bool
same_list [] [] = true
same_list (a ∷ s) (b ∷ t) = bytes_eq a b && same_list s t
same_list [] (b ∷ t) = false
same_list (a ∷ s) [] = false

-- s.view != nil and proto.Equal(s.view, v)
abbrev pub same_view : Option ShownView → ShownView → Bool
same_view none v = false
same_view (some w) v = same_list w.grids v.grids && bytes_eq w.others v.others

-- The oldest idle session past max_idle is forgotten.
abbrev pub forget_oldest : Book → List Bytes → Book
forget_oldest b [] = record b { idle = [] }
forget_oldest b (oldest ∷ idle) =
    if ltb max_idle (length (oldest ∷ idle))
    then record b { sessions = delete oldest b.sessions; idle = idle }
    else record b { idle = oldest ∷ idle }

unfoldable pub rest : Book → Bytes → Book
rest b id = forget_oldest b (b.idle ++ id ∷ [])

abbrev pub or_new : Option Session → Session
or_new none = new_session
or_new (some s) = s

abbrev pub at_found : Book → Bytes → Option Session → Book
at_found b id none = rest (record b { sessions = insert id new_session b.sessions }) id
at_found b id (some s) = b

-- at: the book with the session in it, whose fields lookup then reads.
unfoldable pub at : Book → Bytes → Book
at b id = at_found b id (lookup id b.sessions)

abbrev pub session_of : Book → Bytes → Session
session_of b id = or_new (lookup id b.sessions)

abbrev pub put_session : Book → Bytes → Session → Book
put_session b id s = record b { sessions = insert id s b.sessions }

abbrev pub grids_of : Option ShownView → List Bytes
grids_of none = []
grids_of (some v) = v.grids

-- The loop of recount.
abbrev pub counted_grids : List (Bytes × Session) → List Bytes
counted_grids [] = []
counted_grids ((id, s) ∷ m) =
    let rest = counted_grids m in if ltb 0 s.streams then grids_of s.shown ++ rest else rest

unfoldable pub recount : Book → Book × List (List Bytes)
recount b =
    let u = compact (sorted (counted_grids b.sessions)) in
    if same_list u b.union then (b, []) else (record b { union = u }, u ∷ [])

unfoldable pub open_stream : Book → Bytes → Book × List (List Bytes)
open_stream b id =
    let b1 = at b id in
    let s = session_of b1 id in
    let b2 =
      put_session b1 id (record s { streams = s.streams + 1; away = none; expired = false }) in
    recount (record b2 { idle = compact_out b2.idle id })

-- The call of what Open gave, once, at the time now; there is none for a session without a stream.
abbrev pub close_last : Book → Bytes → Session → ℕ → Book
close_last b id s now =
    if s.streams == 1
    then rest (put_session b id (record s { streams = 0; away = some now })) id
    else put_session b id (record s { streams = s.streams - 1 })

unfoldable pub close_stream : Book → Bytes → ℕ → Book × List (List Bytes)
close_stream b id now =
    let s = session_of b id in if s.streams == 0 then (b, []) else recount (close_last b id s now)

-- Set
unfoldable pub set_shown : Book → Bytes → ShownView → ℕ → Book × List (List Bytes)
set_shown b id v now =
    let b1 = at b id in
    let s = session_of b1 id in
    recount (
      if same_view s.shown v
      then b1
      else put_session b1 id (record s { shown = some v; changed = some now }))

-- Whether now is past away by more than away_for; the zero time is none.
abbrev pub gone_long : Option ℕ → ℕ → Bool
gone_long none now = false
gone_long (some t) now = ltb away_for (now - t)

abbrev is_none : Option ℕ → Bool
is_none none = true
is_none (some t) = false

abbrev list_session : Bytes → Session → ℕ → Option ShownView → List Listed
list_session id s now none = []
list_session id s now (some v) =
    let open_now = ltb 0 s.streams in
    if not open_now && (is_none s.away || gone_long s.away now)
    then []
    else record {
      id = id;
      view = v;
      changed_at = s.changed;
      open_now = open_now;
      away_since = s.away;
    }
      ∷ []

abbrev pub expire_session : Session → ℕ → Session
expire_session s now =
    if not (ltb 0 s.streams) && gone_long s.away now && not s.expired
    then record s { expired = true }
    else s

-- The loop of Sessions, before its sort by id.
pub list_sessions : List (Bytes × Session) → ℕ → List (Bytes × Session) × List Listed
list_sessions [] now = ([], [])
list_sessions ((id, s) ∷ m) now =
    let (m', listed) = list_sessions m now in
    ((id, expire_session s now) ∷ m', list_session id s now s.shown ++ listed)

pub sessions_at : Book → ℕ → Book × List Listed
sessions_at b now =
    let (m, listed) = list_sessions b.sessions now in (record b { sessions = m }, listed)
