-- ===== src/Client/Selections.antt =====
-- client/cache/selection.go: a grid's selection as its views draw it, which is the set that the node told
-- with this client's selects over it. Of a cached grid there is the selection of its row; the cache's
-- mutex makes each operation one step.
pub mod Drawn
pub mod Owed
pub mod Followed
pub mod Answered
pub mod Grids
pub mod Tracked
pub mod Run
use gridwell.Base.{
  ℕ, ◌+◌, ◌%◌, ◌^◌, Bool, true, false, not, ◌&&◌, ◌||◌, List, [], ◌∷◌, map, Option, none, some,
  if◌then◌else◌, Bytes, bytes_eq, bytes-Eq, lookup, insert, delete, is_empty, sorted, ◌==◌,
}
use gridwell.Rpc.Event.{apply_select}

-- tap, in being tap_in
pub record Tap : Type 0 where
  pub tap_in : Bool
  pub tap_seq : ℕ

pub record SelHold : Type 0 where
  pub up : List (Bytes × Tap)
  pub landed : List (Bytes × Bool)
  pub seq : ℕ

pub record SelectSent : Type 0 where
  pub add : List Bytes
  pub remove : List Bytes
  pub seqs : List (Bytes × ℕ)

-- The selections of the cached grids, and the holds.
pub record SelectCache : Type 0 where
  pub told : List (Bytes × List Bytes)
  pub sel : List (Bytes × SelHold)

abbrev pub new_hold : SelHold
new_hold = record { up = []; landed = []; seq = 0 }

abbrev pub nothing_sent : SelectSent
nothing_sent = record { add = []; remove = []; seqs = [] }

-- SelectSent.Empty
abbrev is_empty_sent : SelectSent → Bool
is_empty_sent s = is_empty s.add && is_empty s.remove

-- The tiles whose word is b.
abbrev pub words_in : Bool → List (Bytes × Bool) → List Bytes
words_in b [] = []
words_in b ((id, c) ∷ m) =
    let rest = words_in b m in if (if b then c else not c) then id ∷ rest else rest

abbrev pub up_words : List (Bytes × Tap) → List (Bytes × Bool)
up_words [] = []
up_words ((id, t) ∷ m) = (id, t.tap_in) ∷ up_words m

abbrev pub up_seqs : List (Bytes × Tap) → List (Bytes × ℕ)
up_seqs [] = []
up_seqs ((id, t) ∷ m) = (id, t.tap_seq) ∷ up_seqs m

-- selHold.sent
unfoldable pub sent_of : SelHold → SelectSent
sent_of h = record {
  add = sorted (words_in true (up_words h.up));
  remove = sorted (words_in false (up_words h.up));
  seqs = up_seqs h.up;
}

abbrev pub list_or_none : Option (List Bytes) → List Bytes
list_or_none none = []
list_or_none (some set) = set

abbrev pub selection_under : List Bytes → Option SelHold → List Bytes
selection_under set none = sorted set
selection_under set (some h) =
    apply_select (apply_select set (words_in true h.landed) (words_in false h.landed))
      (sent_of h).add (sent_of h).remove

-- Cache.Selection
pub selection : SelectCache → Bytes → List Bytes
selection c grid_id = selection_under (list_or_none (lookup grid_id c.told)) (lookup grid_id c.sel)

abbrev pub hold_or_new : Option SelHold → SelHold
hold_or_new none = new_hold
hold_or_new (some h) = h

-- h.seq is an uint64.
abbrev pub tap_one : Bool → Bytes → SelHold → SelHold
tap_one b id h =
    let q = (h.seq + 1) % 2 ^ 64 in
    record h { up = insert id (record { tap_in = b; tap_seq = q }) h.up; seq = q }

abbrev pub tap_each : Bool → List Bytes → SelHold → SelHold
tap_each b [] h = h
tap_each b (id ∷ ids) h = tap_each b ids (tap_one b id h)

-- Cache.Select
unfoldable pub select : SelectCache → Bytes → List Bytes → List Bytes → SelectCache
select c grid_id add remove = record c {
  sel =
      insert grid_id
        (tap_each false remove (tap_each true add (hold_or_new (lookup grid_id c.sel)))) c.sel;
}

abbrev pub sent_found : Option SelHold → SelectSent
sent_found none = nothing_sent
sent_found (some h) = sent_of h

-- Cache.SelectionUp
abbrev pub selection_up : SelectCache → Bytes → SelectSent
selection_up c grid_id = sent_found (lookup grid_id c.sel)

abbrev pub seq_or_zero : Option ℕ → ℕ
seq_or_zero none = 0
seq_or_zero (some q) = q

abbrev pub is_tap_of : Option Tap → ℕ → Bool
is_tap_of none q = false
is_tap_of (some t) q = t.tap_seq == q

abbrev pub answer_one : SelectSent → Bool → Bool → Bytes → SelHold → SelHold
answer_one s accepted b id h = record h {
  landed = if accepted then insert id b h.landed else h.landed;
  up = if is_tap_of (lookup id h.up) (seq_or_zero (lookup id s.seqs)) then delete id h.up else h.up;
}

abbrev pub answer_each : SelectSent → Bool → Bool → List Bytes → SelHold → SelHold
answer_each s accepted b [] h = h
answer_each s accepted b (id ∷ ids) h = answer_each s accepted b ids (answer_one s accepted b id h)

-- The hold goes once nothing is up and nothing landed.
abbrev pub keep_hold : Bytes → SelHold → Bool → List (Bytes × SelHold) → List (Bytes × SelHold)
keep_hold grid_id h over sel = if over then delete grid_id sel else insert grid_id h sel

abbrev answered_found : SelectCache → Bytes → SelectSent → Bool → Option SelHold → SelectCache
answered_found c grid_id s accepted none = c
answered_found c grid_id s accepted (some h) =
    let h' = answer_each s accepted false s.remove (answer_each s accepted true s.add h) in
    record c { sel = keep_hold grid_id h' (is_empty h'.up && is_empty h'.landed) c.sel }

-- SelectionLanded for accepted, and SelectionRefused
unfoldable pub answered : SelectCache → Bytes → SelectSent → Bool → SelectCache
answered c grid_id s accepted = answered_found c grid_id s accepted (lookup grid_id c.sel)

abbrev pub same_words : List Bytes → List Bytes → Bool
same_words [] [] = true
same_words (a ∷ s) (b ∷ t) = bytes_eq a b && same_words s t
same_words [] (b ∷ t) = false
same_words (a ∷ s) [] = false

-- sameSet
abbrev pub same_set : List Bytes → List Bytes → Bool
same_set s t = same_words (sorted s) (sorted t)

abbrev pub cleared : SelectCache → Bytes → Option SelHold → SelectCache × Bool
cleared c grid_id none = (c, false)
cleared c grid_id (some h) = (
  record c { sel = keep_hold grid_id (record h { landed = [] }) (is_empty h.up) c.sel },
  not (is_empty h.landed),
)

abbrev pub retold :
    SelectCache × Bool → Bytes → List Bytes → Option (List Bytes) → SelectCache × Bool
retold (c, changed) grid_id ids none = (c, changed)
retold (c, changed) grid_id ids (some set) =
    if same_set set ids then (c, changed) else (record c { told = insert grid_id ids c.told }, true)

-- selectLocked, with whether what is drawn may have changed
unfoldable pub select_locked : SelectCache → Bytes → List Bytes → SelectCache × Bool
select_locked c grid_id ids =
    retold (cleared c grid_id (lookup grid_id c.sel)) grid_id ids (lookup grid_id c.told)
