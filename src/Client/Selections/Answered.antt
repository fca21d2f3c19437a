-- ===== src/Client/Selections/Answered.antt =====
-- client/cache/selection.go: what an answer to a write leaves of a hold.
use gridwell.Base.{
  ℕ, ◌≡◌, refl, ap, sym, ◌∙◌, subst, inl, inr, Bool, true, false, ◌&&◌, ◌||◌, List, [], ◌∷◌, Option,
  none, some, if◌then◌else◌, Bytes, bytes_eq, bytes_eq→eq, bytes-Eq, lookup, insert, delete,
  lookup-insert, lookup-delete, contains, is_empty, arith, Bool-cases, &&_left, &&_right, ◌==◌,
  ==_iff, ==_refl,
}
use gridwell.Client.Selections.{
  Tap, SelHold, SelectSent, new_hold, nothing_sent, seq_or_zero, is_tap_of, answer_one, answer_each,
}
use gridwell.Client.Selections.Drawn.{once, once-insert, once-delete, or_word, IsHold}
use gridwell.Client.Selections.Owed.{
  TileState, TileView, settled, owed, flying, reselected, answer_tile, fail_tile, landed_word,
  answer_view,
}
use gridwell.Client.Selections.Followed.{TileFits, Follows}

-- What an answer leaves up of a tile that the write carried.
abbrev taken : Option Tap → ℕ → Option Tap
taken o q = if is_tap_of o q then none else o

taken-twice : (o : Option Tap) (q : ℕ) → taken (taken o q) q ≡ taken o q
taken-twice none q = refl
taken-twice (some t) q = elim (Bool-cases (t.tap_seq == q)) [
  | inl e ↦ rw e refl
  | inr e ↦ rw e (rw e refl)
]

abbrev word_after : Bool → Bool → Option Bool → Option Bool
word_after set b o = if set then some b else o

lookup-take {ℓ} :
    {V : Type ℓ} (id j : Bytes) (test : Bool) (m : List (Bytes × V))
    → lookup j (if test then delete id m else m)
      ≡ (if bytes_eq id j && test then none else lookup j m)
lookup-take id j true m = lookup-delete id j m ∙ ground arith
lookup-take id j false m = ground arith

answer_one-up :
    (s : SelectSent) (acc b : Bool) (id j : Bytes) (h : SelHold)
    → lookup j (answer_one s acc b id h).up ≡ (
        if bytes_eq id j
        then taken (lookup j h.up) (seq_or_zero (lookup j s.seqs))
        else lookup j h.up)
answer_one-up s acc b id j h =
    lookup-take id j (is_tap_of (lookup id h.up) (seq_or_zero (lookup id s.seqs))) h.up
    ∙ elim (Bool-cases (bytes_eq id j)) [
      | inl e ↦ rw (e, bytes_eq→eq id j e) refl
      | inr e ↦ rw e refl
    ]

answer_one-landed :
    (s : SelectSent) (acc b : Bool) (id j : Bytes) (h : SelHold)
    → lookup j (answer_one s acc b id h).landed
      ≡ word_after (acc && bytes_eq id j) b (lookup j h.landed)
answer_one-landed s true b id j h = lookup-insert id j b h.landed
answer_one-landed s false b id j h = refl

answer_one-IsHold :
    (s : SelectSent) (acc b : Bool) (id : Bytes) (h : SelHold)
    → IsHold h
    → IsHold (answer_one s acc b id h)
answer_one-IsHold s acc b id h k = record {
  ups = once-take (is_tap_of (lookup id h.up) (seq_or_zero (lookup id s.seqs)));
  lands = once-land acc;
}
  where
    once-take : (test : Bool) → once (if test then delete id h.up else h.up) ≡ true
    once-take true = once-delete id h.up k.ups
    once-take false = k.ups

    once-land : (a : Bool) → once (if a then insert id b h.landed else h.landed) ≡ true
    once-land true = once-insert id b h.landed k.lands
    once-land false = k.lands

answer_each-IsHold :
    (s : SelectSent) (acc b : Bool) (ids : List Bytes) (h : SelHold)
    → IsHold h
    → IsHold (answer_each s acc b ids h)
answer_each-IsHold s acc b [] h k = k
answer_each-IsHold s acc b (id ∷ ids) h k =
    answer_each-IsHold s acc b ids (answer_one s acc b id h) (answer_one-IsHold s acc b id h k)

answer_each-seq :
    (s : SelectSent) (acc b : Bool) (ids : List Bytes) (h : SelHold)
    → (answer_each s acc b ids h).seq ≡ h.seq
answer_each-seq s acc b [] h = refl
answer_each-seq s acc b (id ∷ ids) h = answer_each-seq s acc b ids (answer_one s acc b id h)

answer_each-up :
    (s : SelectSent) (acc b : Bool) (ids : List Bytes) (j : Bytes) (h : SelHold)
    → lookup j (answer_each s acc b ids h).up ≡ (
        if contains j ids
        then taken (lookup j h.up) (seq_or_zero (lookup j s.seqs))
        else lookup j h.up)
unfolding contains
answer_each-up s acc b [] j h = refl
answer_each-up s acc b (id ∷ ids) j h =
    answer_each-up s acc b ids j (answer_one s acc b id h)
    ∙ rw (answer_one-up s acc b id j h)
        (both (bytes_eq id j) (contains j ids) (lookup j h.up) (seq_or_zero (lookup j s.seqs)))
  where
    both :
        (x y : Bool) (o : Option Tap) (q : ℕ)
        → (if y then taken (if x then taken o q else o) q else (if x then taken o q else o))
          ≡ (if x || y then taken o q else o)
    both true true o q = taken-twice o q
    both true false o q = refl
    both false y o q = refl

answer_each-landed :
    (s : SelectSent) (acc b : Bool) (ids : List Bytes) (j : Bytes) (h : SelHold)
    → lookup j (answer_each s acc b ids h).landed
      ≡ word_after (acc && contains j ids) b (lookup j h.landed)
unfolding contains
answer_each-landed s acc b [] j h = ground arith
answer_each-landed s acc b (id ∷ ids) j h =
    answer_each-landed s acc b ids j (answer_one s acc b id h)
    ∙ rw (answer_one-landed s acc b id j h) (ground arith)

-- Both loops of answered.
abbrev pub answer_all : SelectSent → Bool → SelHold → SelHold
answer_all s acc h = answer_each s acc false s.remove (answer_each s acc true s.add h)

empty-eq {ℓ} : {A : Type ℓ} (m : List A) → is_empty m ≡ true → m ≡ []
empty-eq [] e = refl
empty-eq (x ∷ m) e = cc

abbrev left_up : Bool → Bool → Option Tap → ℕ → Option Tap
left_up a r o q = if r then taken (if a then taken o q else o) q else (if a then taken o q else o)

left-fits :
    (seq : ℕ) (o : Option Tap) (a r : Bool) (q : ℕ) (t : TileState)
    → TileFits seq o a r q t
    → TileFits seq (left_up a r o q) false false 0 (answer_tile t)
left-fits seq o a r q settled (k, x, y) = rw (x, y) (k, refl, refl)
left-fits seq o a r q (owed b) (p, k, l, x, y) = rw (x, y) (p, k, l, refl, refl)
left-fits seq o a r q (flying true) (k, l, x, y) = rw (x, y, k, ==_refl q) (refl, refl, refl)
left-fits seq o a r q (flying false) (k, l, x, y) = rw (x, y, k, ==_refl q) (refl, refl, refl)
left-fits seq o a r q (reselected c b) (p, k, l, m, x, y) = (p, stays a r, l, refl, refl)
  where
    stays : (a r : Bool) → left_up a r o q ≡ some (record { tap_in = b; tap_seq = p })
    stays a r = rw k (ground (arith, ==_iff p q))

landed-word :
    (acc : Bool) (lo : Option Bool) (told a r : Bool) (seq : ℕ) (o : Option Tap) (q : ℕ)
    (t : TileView)
    → TileFits seq o a r q t.state
    → or_word lo told ≡ t.node
    → or_word (word_after (acc && r) false (word_after (acc && a) true lo)) told
      ≡ (if acc then landed_word t.state t.node else t.node)
landed-word false lo told a r seq o q t f e = e
landed-word true lo told a r seq o q t f e = by_state t.state f
  where
    by_state :
        (u : TileState)
        → TileFits seq o a r q u
        → or_word (word_after r false (word_after a true lo)) told ≡ landed_word u t.node
    by_state settled (k, x, y) = rw (x, y) e
    by_state (owed b) (p, k, l, x, y) = rw (x, y) e
    by_state (flying true) (k, l, x, y) = rw (x, y) refl
    by_state (flying false) (k, l, x, y) = rw (x, y) refl
    by_state (reselected true b) (p, k, l, m, x, y) = rw (x, y) refl
    by_state (reselected false b) (p, k, l, m, x, y) = rw (x, y) refl

pub answer_all-Follows :
    (s : SelectSent) (acc : Bool) (h : SelHold) (told : Bool) (j : Bytes) (n : ℕ) (t : TileView)
    → t.busy ≡ true
    → Follows h s told j n t
    → Follows (answer_all s acc h) nothing_sent told j n (answer_view acc t)
unfolding contains lookup
answer_all-Follows s acc h told j n t busy f = rw busy record {
  is_hold =
      answer_each-IsHold s acc false s.remove _ (answer_each-IsHold s acc true s.add h f.is_hold);
  bound = omega (arith, seqs, f.bound);
  fits =
      subst
        (λ (m : ℕ).
          TileFits m (lookup j (answer_all s acc h).up) false false 0 (answer_tile t.state))
        (sym seqs)
        (subst (λ (o : Option Tap). TileFits h.seq o false false 0 (answer_tile t.state)) (sym ups)
          (left-fits h.seq _ _ _ _ t.state f.fits));
  node =
      ap (λ lo. or_word lo told) lands
      ∙ landed-word acc (lookup j h.landed) told _ _ h.seq (lookup j h.up) _ t f.fits f.node;
}
  where
    seqs : (answer_all s acc h).seq ≡ h.seq
    seqs =
        answer_each-seq s acc false s.remove (answer_each s acc true s.add h)
        ∙ answer_each-seq s acc true s.add h

    ups :
        lookup j (answer_all s acc h).up
        ≡ left_up
            (contains j s.add)
            (contains j s.remove)
            (lookup j h.up)
            (seq_or_zero (lookup j s.seqs))
    ups =
        answer_each-up s acc false s.remove j (answer_each s acc true s.add h)
        ∙ rw (answer_each-up s acc true s.add j h) refl

    lands :
        lookup j (answer_all s acc h).landed
        ≡ word_after
            (acc && contains j s.remove)
            false
            (word_after (acc && contains j s.add) true (lookup j h.landed))
    lands =
        answer_each-landed s acc false s.remove j (answer_each s acc true s.add h)
        ∙ rw (answer_each-landed s acc true s.add j h) refl

fail-fits :
    (seq : ℕ) (o : Option Tap) (a r : Bool) (q : ℕ) (t : TileState)
    → TileFits seq o a r q t
    → TileFits seq o false false 0 (fail_tile t)
fail-fits seq o a r q settled (k, x, y) = (k, refl, refl)
fail-fits seq o a r q (owed b) (p, k, l, x, y) = (p, k, l, refl, refl)
fail-fits seq o a r q (flying b) (k, l, x, y) = (q, k, l, refl, refl)
fail-fits seq o a r q (reselected c b) (p, k, l, m, x, y) = (p, k, l, refl, refl)

pub fail-Follows :
    (s : SelectSent) (h : SelHold) (told : Bool) (j : Bytes) (n : ℕ) (t : TileView)
    → Follows h s told j n t
    → Follows h nothing_sent told j n (record t { state = fail_tile t.state; busy = false })
unfolding contains lookup
fail-Follows s h told j n t f = record {
  is_hold = f.is_hold;
  bound = f.bound;
  fits = fail-fits h.seq (lookup j h.up) _ _ _ t.state f.fits;
  node = f.node;
}

none-fits :
    (seq : ℕ) (a r : Bool) (q : ℕ) (t : TileState)
    → TileFits seq none a r q t
    → TileFits 0 none a r q t
none-fits seq a r q settled f = f
none-fits seq a r q (owed b) (p, k, l, x, y) = cc
none-fits seq a r q (flying b) (k, l, x, y) = cc
none-fits seq a r q (reselected c b) (p, k, l, m, x, y) = cc

-- A hold that holds nothing may go.
pub over-Follows :
    (s : SelectSent) (h : SelHold) (told : Bool) (j : Bytes) (n : ℕ) (t : TileView)
    → (is_empty h.up && is_empty h.landed) ≡ true
    → Follows h s told j n t
    → Follows new_hold s told j n t
unfolding lookup
over-Follows s h told j n t e f = record {
  is_hold = record { ups = refl; lands = refl };
  bound = omega arith;
  fits = none-fits h.seq _ _ _ t.state (
      subst
        (λ m.
          TileFits h.seq (lookup j m) (contains j s.add) (contains j s.remove)
            (seq_or_zero (lookup j s.seqs)) t.state)
        (empty-eq h.up (&&_left _ _ e)) f.fits);
  node = ap (λ m. or_word (lookup j m) told) (sym (empty-eq h.landed (&&_right _ _ e))) ∙ f.node;
}

-- The stream's word is the node's.
pub told-Follows :
    (s : SelectSent) (h : SelHold) (told word : Bool) (j : Bytes) (n : ℕ) (t : TileView)
    → Follows h s told j n t
    → Follows (record h { landed = [] }) s word j n (record t { node = word })
unfolding lookup
told-Follows s h told word j n t f = record {
  is_hold = record { ups = f.is_hold.ups; lands = refl };
  bound = f.bound;
  fits = f.fits;
  node = refl;
}
