-- ===== src/Client/Selections/Drawn.antt =====
-- client/cache/selection.go: what a grid's views draw of each tile.
use gridwell.Base.{
  ◌≡◌, refl, ap, ◌∙◌, inl, inr, Bool, true, false, not, ◌&&◌, ◌||◌, List, [], ◌∷◌, Option, none,
  some, is_some, if◌then◌else◌, Bytes, bytes_eq, bytes_eq_iff, bytes-Eq, lookup, insert, delete,
  has_key, has_key-insert, has_key-delete, contains, contains-sorted, arith, Bool-cases,
}
use gridwell.Rpc.Event.Select.{apply_select-contains}
use gridwell.Client.Selections.{
  Tap, SelHold, SelectCache, words_in, up_words, sent_of, list_or_none, selection_under, selection,
}

-- A Go map holds each key once.
abbrev pub once {ℓ} : {V : Type ℓ} → List (Bytes × V) → Bool
once [] = true
once ((k, v) ∷ m) = not (has_key k m) && once m

pub once-insert {ℓ} :
    {V : Type ℓ} (k : Bytes) (v : V) (m : List (Bytes × V))
    → once m ≡ true
    → once (insert k v m) ≡ true
unfolding insert lookup
once-insert k v [] h = refl
once-insert k v ((j, w) ∷ m) h =
    ground (arith, bytes_eq_iff j k, bytes_eq_iff k j, once-insert k v m, has_key-insert k j v m)

pub once-delete {ℓ} :
    {V : Type ℓ} (k : Bytes) (m : List (Bytes × V)) → once m ≡ true → once (delete k m) ≡ true
unfolding delete lookup
once-delete k [] h = refl
once-delete k ((j, w) ∷ m) h =
    ground (arith, bytes_eq_iff j k, bytes_eq_iff k j, once-delete k m, has_key-delete k j m)

abbrev pub or_word : Option Bool → Bool → Bool
or_word none b = b
or_word (some w) b = w

-- What a list of words says of a tile that a set has or has not.
words_in-none :
    (b : Bool) (j : Bytes) (m : List (Bytes × Bool))
    → has_key j m ≡ false
    → contains j (words_in b m) ≡ false
unfolding contains lookup
words_in-none b j [] h = refl
words_in-none b j ((k, w) ∷ m) h = ground (arith, words_in-none b j m)

words-say :
    (j : Bytes) (m : List (Bytes × Bool)) (b : Bool)
    → once m ≡ true
    → ((b || contains j (words_in true m)) && not (contains j (words_in false m)))
      ≡ or_word (lookup j m) b
unfolding contains lookup
words-say j [] b h = ground arith
words-say j ((k, w) ∷ m) b h =
    ground
      (arith, bytes_eq_iff k j, words-say j m b, words_in-none true k m, words_in-none false k m)

abbrev tap_word : Option Tap → Option Bool
tap_word none = none
tap_word (some t) = some t.tap_in

lookup-up_words :
    (j : Bytes) (m : List (Bytes × Tap)) → lookup j (up_words m) ≡ tap_word (lookup j m)
unfolding lookup
lookup-up_words j [] = refl
lookup-up_words j ((k, t) ∷ m) = elim (Bool-cases (bytes_eq k j)) [
  | inl e ↦ rw e refl
  | inr e ↦ rw e (lookup-up_words j m)
]

has_key-up_words : (j : Bytes) (m : List (Bytes × Tap)) → has_key j (up_words m) ≡ has_key j m
has_key-up_words j m = ap is_some (lookup-up_words j m) ∙ same (lookup j m)
  where
    same : (o : Option Tap) → is_some (tap_word o) ≡ is_some o
    same none = refl
    same (some t) = refl

once-up_words : (m : List (Bytes × Tap)) → once m ≡ true → once (up_words m) ≡ true
once-up_words [] h = refl
once-up_words ((k, t) ∷ m) h = ground (arith, once-up_words m, has_key-up_words k m)

-- The words of a hold.
pub record IsHold (h : SelHold) : Type 0 where
  pub ups : once h.up ≡ true
  pub lands : once h.landed ≡ true

-- What is drawn of a tile: the word that is up, else the one that landed, else the node's.
abbrev pub drawn_under : Option SelHold → Bytes → Bool → Bool
drawn_under none j told = told
drawn_under (some h) j told = or_word (tap_word (lookup j h.up)) (or_word (lookup j h.landed) told)

abbrev pub AllHold : Option SelHold → Type 0
AllHold o = (h : SelHold) → o ≡ some h → IsHold h

selection_under-contains :
    (set : List Bytes) (o : Option SelHold) (j : Bytes)
    → AllHold o
    → contains j (selection_under set o) ≡ drawn_under o j (contains j set)
unfolding sent_of
selection_under-contains set none j fit = contains-sorted j set
selection_under-contains set (some h) j fit =
    (apply_select-contains _ (sent_of h).add (sent_of h).remove j).0
    ∙ rw
        (
          contains-sorted j (words_in true (up_words h.up)),
          contains-sorted j (words_in false (up_words h.up)),
          (apply_select-contains set (words_in true h.landed) (words_in false h.landed) j).0,
          words-say j h.landed (contains j set) (fit h refl).lands,
        )
        (words-say j (up_words h.up) _ (once-up_words h.up (fit h refl).ups)
          ∙ ap (λ o. or_word o (or_word (lookup j h.landed) (contains j set)))
              (lookup-up_words j h.up))

-- The views of a grid draw of each tile the word that is up, else the one that landed, else the node's.
pub selection-contains :
    (c : SelectCache) (grid_id j : Bytes)
    → AllHold (lookup grid_id c.sel)
    → contains j (selection c grid_id)
      ≡ drawn_under (lookup grid_id c.sel) j (contains j (list_or_none (lookup grid_id c.told)))
unfolding selection
selection-contains c grid_id j fit =
    selection_under-contains (list_or_none (lookup grid_id c.told)) (lookup grid_id c.sel) j fit

-- A write carries each tile that is up, under its word.
abbrev pub is_word : Bool → Option Tap → Bool
is_word b none = false
is_word b (some t) = if b then t.tap_in else not t.tap_in

pub words_in-up :
    (b : Bool) (j : Bytes) (m : List (Bytes × Tap))
    → once m ≡ true
    → contains j (words_in b (up_words m)) ≡ is_word b (lookup j m)
unfolding contains lookup
words_in-up b j [] h = refl
words_in-up b j ((k, t) ∷ m) h = ground (
  arith,
  bytes_eq_iff k j,
  words_in-up b j m,
  words_in-none b k (up_words m),
  has_key-up_words k m,
)
