-- ===== src/Client/Selections/Followed.antt =====
-- client/cache/selection.go: a hold beside what one tile awaits, at a select and a send.
use gridwell.Base.{
  ℕ, ◌+◌, ◌≤◌, ◌<◌, ◌%◌, ◌^◌, ◌≡◌, refl, ap, sym, ◌∙◌, subst, inl, inr, Bool, true, false, not,
  ◌||◌, List, [], ◌∷◌, Option, none, some, if◌then◌else◌, Bytes, bytes_eq, bytes-Eq, lookup, insert,
  lookup-insert, contains, length, contains-sorted, arith, Bool-cases,
}
use gridwell.Client.Selections.{
  Tap, SelHold, SelectSent, nothing_sent, sent_of, tap_one, tap_each, seq_or_zero, up_seqs,
  up_words, words_in,
}
use gridwell.Client.Selections.Drawn.{once-insert, or_word, IsHold, is_word, words_in-up}
use gridwell.Client.Selections.Owed.{
  TileState, TileView, settled, owed, flying, reselected, tap_tile, send_tile, tap_view,
}

-- What is up of the tile and what the write in flight carries of it, at a hold's counter.
abbrev pub TileFits : ℕ → Option Tap → Bool → Bool → ℕ → TileState → Type 0
TileFits seq o a r q settled = (o ≡ none) × (a ≡ false) × (r ≡ false)
TileFits seq o a r q (owed b) =
    (p : ℕ) × (o ≡ some (record { tap_in = b; tap_seq = p }))
    × (p ≤ seq)
    × (a ≡ false)
    × (r ≡ false)
TileFits seq o a r q (flying b) =
    (o ≡ some (record { tap_in = b; tap_seq = q })) × (q ≤ seq) × (a ≡ b) × (r ≡ not b)
TileFits seq o a r q (reselected c b) =
    (p : ℕ) × (o ≡ some (record { tap_in = b; tap_seq = p }))
    × (p ≤ seq)
    × (q < p)
    × (a ≡ c)
    × (r ≡ not c)

pub record Follows (h : SelHold) (s : SelectSent) (told : Bool) (j : Bytes) (n : ℕ) (t : TileView)
    : Type 0 where
  pub is_hold : IsHold h
  pub bound : h.seq ≤ n
  pub fits :
      TileFits h.seq
        (lookup j h.up)
        (contains j s.add)
        (contains j s.remove)
        (seq_or_zero (lookup j s.seqs))
        t.state
  pub node : or_word (lookup j h.landed) told ≡ t.node

TileFits-later :
    (seq later : ℕ) (o : Option Tap) (a r : Bool) (q : ℕ) (t : TileState)
    → seq ≤ later
    → TileFits seq o a r q t
    → TileFits later o a r q t
TileFits-later seq later o a r q settled h f = f
TileFits-later seq later o a r q (owed b) h (p, e, l, x, y) = (p, e, omega arith, x, y)
TileFits-later seq later o a r q (flying b) h (e, l, x, y) = (e, omega arith, x, y)
TileFits-later seq later o a r q (reselected c b) h (p, e, l, m, x, y) =
    (p, e, omega arith, m, x, y)

TileFits-tap :
    (seq : ℕ) (o : Option Tap) (a r : Bool) (q : ℕ) (t : TileState) (b : Bool)
    → TileFits seq o a r q t
    → TileFits (seq + 1) (some (record { tap_in = b; tap_seq = seq + 1 })) a r q (tap_tile b t)
TileFits-tap seq o a r q settled b (e, x, y) = (seq + 1, refl, omega arith, x, y)
TileFits-tap seq o a r q (owed c) b (p, e, l, x, y) = (seq + 1, refl, omega arith, x, y)
TileFits-tap seq o a r q (flying c) b (e, l, x, y) = (seq + 1, refl, omega arith, omega arith, x, y)
TileFits-tap seq o a r q (reselected c d) b (p, e, l, m, x, y) =
    (seq + 1, refl, omega arith, omega arith, x, y)

tap_tile-twice : (b : Bool) (t : TileState) → tap_tile b (tap_tile b t) ≡ tap_tile b t
tap_tile-twice b settled = refl
tap_tile-twice b (owed c) = refl
tap_tile-twice b (flying c) = refl
tap_tile-twice b (reselected c d) = refl

tap_view-again :
    (k l b : Bool) (t : TileView) → tap_view l b (tap_view k b t) ≡ tap_view (k || l) b t
tap_view-again true true b t = ap (λ u. record t { state = u }) (tap_tile-twice b t.state)
tap_view-again true false b t = refl
tap_view-again false l b t = refl

no_wrap : (q : ℕ) → q + 1 < 2 ^ 64 → (q + 1) % 2 ^ 64 ≡ q + 1
no_wrap q h = omega arith

-- The state that a named tile has.
TileFits-named :
    (h : SelHold) (j : Bytes) (named : Bool) (tap : Tap) (up : List (Bytes × Tap)) (a r : Bool)
    (q : ℕ) (t : TileView) (b : Bool)
    → tap ≡ record { tap_in = b; tap_seq = h.seq + 1 }
    → lookup j up ≡ (if named then some tap else lookup j h.up)
    → TileFits h.seq (lookup j h.up) a r q t.state
    → TileFits (h.seq + 1) (lookup j up) a r q (tap_view named b t).state
TileFits-named h j true tap up a r q t b k e f =
    subst (λ (o : Option Tap). TileFits (h.seq + 1) o a r q (tap_tile b t.state))
      (sym (e ∙ ap some k)) (TileFits-tap h.seq (lookup j h.up) a r q t.state b f)
TileFits-named h j false tap up a r q t b k e f =
    subst (λ (o : Option Tap). TileFits (h.seq + 1) o a r q t.state) (sym e)
      (TileFits-later h.seq (h.seq + 1) (lookup j h.up) a r q t.state (omega arith) f)

tap_view-node : (named b : Bool) (t : TileView) → (tap_view named b t).node ≡ t.node
tap_view-node true b t = refl
tap_view-node false b t = refl

tap_one-Follows :
    (b : Bool) (id : Bytes) (h : SelHold) (s : SelectSent) (told : Bool) (j : Bytes) (n : ℕ)
    (t : TileView)
    → n + 1 < 2 ^ 64
    → Follows h s told j n t
    → Follows (tap_one b id h) s told j (n + 1) (tap_view (bytes_eq id j) b t)
tap_one-Follows b id h s told j n t room f =
    let w = no_wrap h.seq (omega (arith, f.bound)) in
    let tap : Tap = record { tap_in = b; tap_seq = (h.seq + 1) % 2 ^ 64 } in
    record {
      is_hold = record { ups = once-insert id tap h.up f.is_hold.ups; lands = f.is_hold.lands };
      bound = omega (arith, f.bound, w);
      fits =
          subst
            (λ (m : ℕ).
              TileFits m (lookup j (insert id tap h.up)) (contains j s.add) (contains j s.remove)
                (seq_or_zero (lookup j s.seqs)) (tap_view (bytes_eq id j) b t).state)
            (sym w)
            (TileFits-named h j (bytes_eq id j) tap (insert id tap h.up) _ _ _ t b
              (ap (λ (m : ℕ). record { tap_in = b; tap_seq = m }) w) (lookup-insert id j tap h.up)
              f.fits);
      node = f.node ∙ sym (tap_view-node (bytes_eq id j) b t);
    }

pub tap_each-Follows :
    (b : Bool) (ids : List Bytes) (h : SelHold) (s : SelectSent) (told : Bool) (j : Bytes) (n : ℕ)
    (t : TileView)
    → n + length ids < 2 ^ 64
    → Follows h s told j n t
    → Follows (tap_each b ids h) s told j (n + length ids) (tap_view (contains j ids) b t)
unfolding contains
tap_each-Follows b [] h s told j n t room f =
    subst (λ (m : ℕ). Follows h s told j m t) (omega arith) f
tap_each-Follows b (id ∷ ids) h s told j n t room f =
    subst (Follows (tap_each b ids (tap_one b id h)) s told j (n + length (id ∷ ids)))
      (tap_view-again (bytes_eq id j) (contains j ids) b t)
      (subst
        (λ (m : ℕ).
          Follows (tap_each b ids (tap_one b id h)) s told j m
            (tap_view (contains j ids) b (tap_view (bytes_eq id j) b t)))
        (omega arith)
        (tap_each-Follows b ids (tap_one b id h) s told j (n + 1) (tap_view (bytes_eq id j) b t)
          (omega arith) (tap_one-Follows b id h s told j n t (omega arith) f)))

-- What a send carries of the tile.
abbrev tap_number : Option Tap → Option ℕ
tap_number none = none
tap_number (some t) = some t.tap_seq

lookup-up_seqs :
    (j : Bytes) (m : List (Bytes × Tap)) → lookup j (up_seqs m) ≡ tap_number (lookup j m)
unfolding lookup
lookup-up_seqs j [] = refl
lookup-up_seqs j ((k, t) ∷ m) = elim (Bool-cases (bytes_eq k j)) [
  | inl e ↦ rw e refl
  | inr e ↦ rw e (lookup-up_seqs j m)
]

sends-fits :
    (seq : ℕ) (o : Option Tap) (q : ℕ) (t : TileState)
    → TileFits seq o false false 0 t
    → seq_or_zero (tap_number o) ≡ q
    → TileFits seq o (is_word true o) (is_word false o) q (send_tile t)
sends-fits seq o q settled (k, x, y) e = (k, ap (is_word true) k, ap (is_word false) k)
sends-fits seq o q (owed b) (p, k, l, x, y) e =
    let same = sym (ap (λ (u : Option Tap). seq_or_zero (tap_number u)) k) ∙ e in
    (
      k ∙ ap (λ (m : ℕ). some (record { tap_in = b; tap_seq = m })) same,
      subst (λ (m : ℕ). m ≤ seq) same l,
      ap (is_word true) k,
      ap (is_word false) k,
    )
sends-fits seq o q (flying b) (k, l, x, y) e = cc
sends-fits seq o q (reselected c b) (p, k, l, m, x, y) e = cc

none_carried :
    (h : SelHold) (told : Bool) (j : Bytes) (n : ℕ) (t : TileView)
    → Follows h nothing_sent told j n t
    → TileFits h.seq (lookup j h.up) false false 0 t.state
unfolding contains lookup
none_carried h told j n t f = f.fits

pub sent_of-Follows :
    (h : SelHold) (told : Bool) (j : Bytes) (n : ℕ) (t : TileView)
    → Follows h nothing_sent told j n t
    → Follows h (sent_of h) told j n (record t { state = send_tile t.state; busy = true })
unfolding sent_of
sent_of-Follows h told j n t f = record {
  is_hold = f.is_hold;
  bound = f.bound;
  fits =
      rw
        (
          contains-sorted j (words_in true (up_words h.up)),
          contains-sorted j (words_in false (up_words h.up)),
          words_in-up true j h.up f.is_hold.ups,
          words_in-up false j h.up f.is_hold.ups,
        )
        (sends-fits h.seq (lookup j h.up) _ t.state (none_carried h told j n t f)
          (ap seq_or_zero (sym (lookup-up_seqs j h.up))));
  node = f.node;
}
