-- ===== src/Client/Selections/Tracked.antt =====
-- client/cache/selection.go: the state of one grid beside what a tile awaits, at each operation.
use gridwell.Base.{
  ℕ, ◌+◌, ◌<◌, ◌^◌, ◌≡◌, refl, ap, sym, ◌∙◌, subst, inl, inr, Bool, true, false, ◌&&◌, List, [],
  ◌∷◌, Option, none, some, is_some, if◌then◌else◌, Bytes, bytes_eq, bytes_eq→eq, bytes-Eq, lookup,
  contains, length, is_empty, sorted, contains-sorted, arith, Bool-cases, &&_left, &&_right,
}
use gridwell.Client.Selections.{
  SelHold, SelectSent, new_hold, nothing_sent, sent_of, list_or_none, tap_each, hold_or_new,
  sent_found, same_set, same_words,
}
use gridwell.Client.Selections.Owed.{
  SelectOp, selects, sends, lands, refuses, fails, tells, TileState, TileView, settled, owed,
  flying, reselected, tap_view, answer_view, tile_step, taps_of, send_tile,
}
use gridwell.Client.Selections.Followed.{Follows, TileFits, tap_each-Follows, sent_of-Follows}
use gridwell.Client.Selections.Answered.{
  answer_all, answer_all-Follows, fail-Follows, over-Follows, told-Follows,
}
use gridwell.Client.Selections.Grids.{
  GridState, unless_over, grid_answer, told_hold, told_set, grid_step,
}

abbrev sent_or_none : Option SelectSent → SelectSent
sent_or_none none = nothing_sent
sent_or_none (some s) = s

pub record Tracks (x : GridState) (j : Bytes) (cached : Bool) (n : ℕ) (t : TileView) : Type 0 where
  pub follows : Follows (hold_or_new x.0) (sent_or_none x.1) (contains j (list_or_none x.2)) j n t
  pub is_busy : t.busy ≡ is_some x.1
  pub is_cached : is_some x.2 ≡ cached

tap_view-busy : (named b : Bool) (t : TileView) → (tap_view named b t).busy ≡ t.busy
tap_view-busy true b t = refl
tap_view-busy false b t = refl

answer_view-busy : (acc : Bool) (t : TileView) → t.busy ≡ true → (answer_view acc t).busy ≡ false
answer_view-busy acc t e = rw e refl

unless_over-Follows :
    (s : SelectSent) (h : SelHold) (told : Bool) (j : Bytes) (n : ℕ) (t : TileView) (over : Bool)
    → over ≡ (is_empty h.up && is_empty h.landed)
    → Follows h s told j n t
    → Follows (hold_or_new (unless_over h over)) s told j n t
unless_over-Follows s h told j n t true e f = over-Follows s h told j n t (sym e) f
unless_over-Follows s h told j n t false e f = f

none-settled :
    (seq : ℕ) (a r : Bool) (q : ℕ) (t : TileState) → TileFits seq none a r q t → t ≡ settled
none-settled seq a r q settled f = refl
none-settled seq a r q (owed b) (p, k, l, x, y) = cc
none-settled seq a r q (flying b) (k, l, x, y) = cc
none-settled seq a r q (reselected c b) (p, k, l, m, x, y) = cc

-- Without a hold nothing is up, so an answer changes nothing.
none-Follows :
    (acc : Bool) (s : SelectSent) (told : Bool) (j : Bytes) (n : ℕ) (t : TileView)
    → t.busy ≡ true
    → Follows new_hold s told j n t
    → Follows new_hold nothing_sent told j n (answer_view acc t)
unfolding contains lookup
none-Follows acc s told j n t e f =
    let st = none-settled 0 _ _ _ t.state f.fits in
    rw (e, st)
      record {
        is_hold = f.is_hold;
        bound = f.bound;
        fits = (refl, refl, refl);
        node = f.node ∙ same_word acc;
      }
  where
    same_word : (b : Bool) → t.node ≡ (if b then t.node else t.node)
    same_word true = refl
    same_word false = refl

if_false {ℓ} : {A : Type ℓ} (b : Bool) (x y : A) → b ≡ false → (if b then x else y) ≡ y
if_false b x y e = rw e refl

if_true {ℓ} : {A : Type ℓ} (b : Bool) (x y : A) → b ≡ true → (if b then x else y) ≡ x
if_true b x y e = rw e refl

answer-Tracks :
    (acc : Bool) (x : GridState) (j : Bytes) (cached : Bool) (n : ℕ) (t : TileView)
    → Tracks x j cached n t
    → Tracks (grid_answer acc x) j cached n (answer_view acc t)
answer-Tracks acc (ho, none, set) j cached n t k =
    subst (Tracks (ho, none, set) j cached n) (sym (if_false t.busy _ _ k.is_busy)) k
answer-Tracks acc (none, some s, set) j cached n t k = record {
  follows = none-Follows acc s _ j n t k.is_busy k.follows;
  is_busy = answer_view-busy acc t k.is_busy;
  is_cached = k.is_cached;
}
answer-Tracks acc (some h, some s, set) j cached n t k = record {
  follows =
      unless_over-Follows nothing_sent (answer_all s acc h) _ j n (answer_view acc t) _ refl
        (answer_all-Follows s acc h _ j n t k.is_busy k.follows);
  is_busy = answer_view-busy acc t k.is_busy;
  is_cached = k.is_cached;
}

same_words-eq : (s t : List Bytes) → same_words s t ≡ true → s ≡ t
same_words-eq [] [] e = refl
same_words-eq (a ∷ s) (b ∷ t) e =
    let head = bytes_eq→eq a b (&&_left (bytes_eq a b) (same_words s t) e) in
    let tail = same_words-eq s t (&&_right (bytes_eq a b) (same_words s t) e) in
    ap (λ i. i ∷ s) head ∙ ap (λ is. b ∷ is) tail
same_words-eq [] (b ∷ t) e = cc
same_words-eq (a ∷ s) [] e = cc

same_set-contains :
    (s t : List Bytes) (j : Bytes) → same_set s t ≡ true → contains j s ≡ contains j t
same_set-contains s t j e =
    sym (contains-sorted j s)
    ∙ ap (contains j) (same_words-eq (sorted s) (sorted t) e)
    ∙ contains-sorted j t

told_set-contains :
    (ids : List Bytes) (set : Option (List Bytes)) (j : Bytes)
    → contains j (list_or_none (told_set ids set)) ≡ (is_some set && contains j ids)
unfolding contains
told_set-contains ids none j = refl
told_set-contains ids (some set) j = elim (Bool-cases (same_set set ids)) [
  | inl e ↦ rw e (same_set-contains set ids j e)
  | inr e ↦ rw e refl
]

told_set-is_some :
    (ids : List Bytes) (set : Option (List Bytes)) → is_some (told_set ids set) ≡ is_some set
told_set-is_some ids none = refl
told_set-is_some ids (some set) = elim (Bool-cases (same_set set ids)) [
  | inl e ↦ rw e refl
  | inr e ↦ rw e refl
]

told_hold-Follows :
    (ho : Option SelHold) (s : SelectSent) (told word : Bool) (j : Bytes) (n : ℕ) (t : TileView)
    → Follows (hold_or_new ho) s told j n t
    → Follows (hold_or_new (told_hold ho)) s word j n (record t { node = word })
told_hold-Follows none s told word j n t f = told-Follows s new_hold told word j n t f
told_hold-Follows (some h) s told word j n t f =
    unless_over-Follows s (record h { landed = [] }) word j n (record t { node = word })
      (is_empty h.up) (ground arith) (told-Follows s h told word j n t f)

pub none_named :
    (x : GridState) (j : Bytes) (cached : Bool) (n : ℕ) (t : TileView)
    → Tracks x j cached n t
    → Tracks x j cached (n + 0) t
none_named x j cached n t k = subst (λ (m : ℕ). Tracks x j cached m t) (omega arith) k

sent_found-Follows :
    (ho : Option SelHold) (told : Bool) (j : Bytes) (n : ℕ) (t : TileView)
    → Follows (hold_or_new ho) nothing_sent told j n t
    → Follows
        (hold_or_new ho)
        (sent_found ho)
        told
        j
        n
        (record t { state = send_tile t.state; busy = true })
unfolding sent_of sorted
sent_found-Follows none told j n t f = sent_of-Follows new_hold told j n t f
sent_found-Follows (some h) told j n t f = sent_of-Follows h told j n t f

pub grid_step-Tracks :
    (x : GridState) (op : SelectOp) (j : Bytes) (cached : Bool) (n : ℕ) (t : TileView)
    → n + taps_of op < 2 ^ 64
    → Tracks x j cached n t
    → Tracks (grid_step x op) j cached (n + taps_of op) (tile_step cached j t op)
grid_step-Tracks (ho, fl, set) (selects g add remove) j cached n t room k = record {
  follows =
      subst
        (λ (m : ℕ).
          Follows (tap_each false remove (tap_each true add (hold_or_new ho))) (sent_or_none fl)
            (contains j (list_or_none set)) j m
            (tap_view (contains j remove) false (tap_view (contains j add) true t)))
        (omega arith)
        (tap_each-Follows false remove _ _ _ j (n + length add) _ (omega arith)
          (tap_each-Follows true add (hold_or_new ho) _ _ j n t (omega arith) k.follows));
  is_busy = tap_view-busy _ false _ ∙ tap_view-busy _ true t ∙ k.is_busy;
  is_cached = k.is_cached;
}
grid_step-Tracks (ho, none, set) (sends g) j cached n t room k = rw k.is_busy (
    none_named (ho, some (sent_found ho), set) j cached n _
      (record {
        follows = sent_found-Follows ho _ j n t k.follows;
        is_busy = refl;
        is_cached = k.is_cached;
      }))
grid_step-Tracks (ho, some s, set) (sends g) j cached n t room k =
    subst (Tracks (ho, some s, set) j cached (n + 0)) (sym (if_true t.busy _ _ k.is_busy))
      (none_named (ho, some s, set) j cached n t k)
grid_step-Tracks x (lands g) j cached n t room k =
    none_named (grid_answer true x) j cached n (answer_view true t)
      (answer-Tracks true x j cached n t k)
grid_step-Tracks x (refuses g) j cached n t room k =
    none_named (grid_answer false x) j cached n (answer_view false t)
      (answer-Tracks false x j cached n t k)
grid_step-Tracks (ho, none, set) (fails g) j cached n t room k =
    subst (Tracks (ho, none, set) j cached (n + 0)) (sym (if_false t.busy _ _ k.is_busy))
      (none_named (ho, none, set) j cached n t k)
grid_step-Tracks (ho, some s, set) (fails g) j cached n t room k = rw k.is_busy (
    none_named (ho, none, set) j cached n _
      (record {
        follows = fail-Follows s (hold_or_new ho) _ j n t k.follows;
        is_busy = refl;
        is_cached = k.is_cached;
      }))
grid_step-Tracks (ho, fl, set) (tells g ids) j cached n t room k =
    none_named (told_hold ho, fl, told_set ids set) j cached n _
      (record {
        follows =
            subst
              (λ (b : Bool).
                Follows (hold_or_new (told_hold ho)) (sent_or_none fl)
                  (contains j (list_or_none (told_set ids set))) j n (record t { node = b }))
              (told_set-contains ids set j ∙ ap (λ b. b && contains j ids) k.is_cached)
              (told_hold-Follows ho (sent_or_none fl) _ _ j n t k.follows);
        is_busy = k.is_busy;
        is_cached = told_set-is_some ids set ∙ k.is_cached;
      })
