-- ===== src/Client/Selections/Run.antt =====
-- client/cache/selection.go with postSelection of client/wasm/selection.go: runs of the cache beside the
-- account of one tile, in any order of selects, answers and what the stream tells.
use gridwell.Base.{
  ℕ, ◌+◌, ◌≤◌, ◌<◌, ◌^◌, ◌≡◌, refl, ap, sym, ◌∙◌, subst, Bool, true, false, List, [], ◌∷◌, Option,
  none, some, if◌then◌else◌, Bytes, bytes_eq, bytes_eq→eq, bytes-Eq, lookup, has_key, contains,
  arith,
}
use gridwell.Client.Selections.{
  SelHold, SelectSent, list_or_none, selection, hold_or_new, seq_or_zero,
}
use gridwell.Client.Selections.Drawn.{IsHold, AllHold, drawn_under, selection-contains}
use gridwell.Client.Selections.Owed.{
  SelectOp, Selecting, select_step, run_selects, TileState, TileView, settled, owed, flying,
  reselected, drawn_of, tile_step, grid_of_op, run_tile, taps_of, taps_in,
}
use gridwell.Client.Selections.Followed.{Follows, TileFits}
use gridwell.Client.Selections.Grids.{GridState, grid_state, grid_step, select_step-grid_state}
use gridwell.Client.Selections.Tracked.{Tracks, none_named, grid_step-Tracks}

Tracks-later :
    (x : GridState) (j : Bytes) (cached : Bool) (n m : ℕ) (t : TileView)
    → n ≤ m
    → Tracks x j cached n t
    → Tracks x j cached m t
Tracks-later x j cached n m t h k = record {
  follows = record {
    is_hold = k.follows.is_hold;
    bound = omega (arith, k.follows.bound);
    fits = k.follows.fits;
    node = k.follows.node;
  };
  is_busy = k.is_busy;
  is_cached = k.is_cached;
}

step-Tracks :
    (g j : Bytes) (cached : Bool) (w : Selecting) (op : SelectOp) (n : ℕ) (t : TileView)
    → n + taps_of op < 2 ^ 64
    → Tracks (grid_state w g) j cached n t
    → Tracks
        (grid_state (select_step w op) g)
        j
        cached
        (n + taps_of op)
        (if bytes_eq (grid_of_op op) g then tile_step cached j t op else t)
step-Tracks g j cached w op n t room k =
    subst
      (λ (x : GridState).
        Tracks x j cached (n + taps_of op)
          (if bytes_eq (grid_of_op op) g then tile_step cached j t op else t))
      (sym (select_step-grid_state w op g)) (by_grid (bytes_eq (grid_of_op op) g) refl)
  where
    by_grid :
        (b : Bool)
        → bytes_eq (grid_of_op op) g ≡ b
        → Tracks
            (if b then grid_step (grid_state w (grid_of_op op)) op else grid_state w g)
            j
            cached
            (n + taps_of op)
            (if b then tile_step cached j t op else t)
    by_grid true e = grid_step-Tracks (grid_state w (grid_of_op op)) op j cached n t room (
        subst (λ (i : Bytes). Tracks (grid_state w i) j cached n t)
          (sym (bytes_eq→eq (grid_of_op op) g e)) k)
    by_grid false e = Tracks-later (grid_state w g) j cached n (n + taps_of op) t (omega arith) k

steps-Tracks :
    (g j : Bytes) (cached : Bool) (ops : List SelectOp) (w : Selecting) (n : ℕ) (t : TileView)
    → n + taps_in ops < 2 ^ 64
    → Tracks (grid_state w g) j cached n t
    → Tracks
        (grid_state (run_selects w ops) g)
        j
        cached
        (n + taps_in ops)
        (run_tile cached g j t ops)
steps-Tracks g j cached [] w n t room k = none_named (grid_state w g) j cached n t k
steps-Tracks g j cached (op ∷ ops) w n t room k =
    let t' = if bytes_eq (grid_of_op op) g then tile_step cached j t op else t in
    subst
      (λ (m : ℕ).
        Tracks (grid_state (run_selects (select_step w op) ops) g) j cached m
          (run_tile cached g j t' ops))
      (omega arith)
      (steps-Tracks g j cached ops (select_step w op) (n + taps_of op) t' (omega arith)
        (step-Tracks g j cached w op n t (omega arith) k))

-- No select yet, and no write.
abbrev pub fresh : List (Bytes × List Bytes) → Selecting
fresh told = record { cache = record { told = told; sel = [] }; flight = [] }

abbrev pub fresh_tile : Bool → TileView
fresh_tile node = record { state = settled; node = node; busy = false }

fresh-Tracks :
    (told : List (Bytes × List Bytes)) (g j : Bytes)
    → Tracks
        (grid_state (fresh told) g)
        j
        (has_key g told)
        0
        (fresh_tile (contains j (list_or_none (lookup g told))))
unfolding lookup contains
fresh-Tracks told g j = record {
  follows = record {
    is_hold = record { ups = refl; lands = refl };
    bound = omega arith;
    fits = (refl, refl, refl);
    node = refl;
  };
  is_busy = refl;
  is_cached = refl;
}

drawn-fits :
    (ho : Option SelHold) (told : Bool) (j : Bytes) (s : SelectSent) (n : ℕ) (t : TileView)
    → Follows (hold_or_new ho) s told j n t
    → drawn_under ho j told ≡ drawn_of t.state t.node
drawn-fits ho told j s n t f = new_or ho ∙ by_state t.state f.fits
  where
    new_or : (o : Option SelHold) → drawn_under o j told ≡ drawn_under (some (hold_or_new o)) j told
    new_or none = unfold lookup in refl
    new_or (some h) = refl

    by_state :
        (u : TileState)
        → TileFits
            (hold_or_new ho).seq
            (lookup j (hold_or_new ho).up)
            (contains j s.add)
            (contains j s.remove)
            (seq_or_zero (lookup j s.seqs))
            u
        → drawn_under (some (hold_or_new ho)) j told ≡ drawn_of u t.node
    by_state settled (k, x, y) = rw k f.node
    by_state (owed b) (p, k, l, x, y) = rw k refl
    by_state (flying b) (k, l, x, y) = rw k refl
    by_state (reselected c b) (p, k, l, m, x, y) = rw k refl

all-hold : (ho : Option SelHold) → IsHold (hold_or_new ho) → AllHold ho
all-hold ho k h e = subst IsHold (ap hold_or_new e) k

-- From a cache with no select made, and with fewer than 2^64 tiles named in all: a view draws a tile
-- selected exactly if the tile's own account says so, after any selects, sends, answers, failed sends and
-- sets that the stream tells. By that account a select is owed until an answer comes to a write that was
-- sent after it, whether the write was accepted or refused; a tile that was selected again since the send
-- stays owed under its new word; an owed tile shows its select, and any other the node's word, which is
-- the last set that the stream told or, since then, what the node accepted. One write of a grid is in
-- flight at a time.
pub run_selects-drawn :
    (told : List (Bytes × List Bytes)) (ops : List SelectOp) (g j : Bytes)
    → taps_in ops < 2 ^ 64
    → let t =
        run_tile
          (has_key g told)
          g
          j
          (fresh_tile (contains j (list_or_none (lookup g told))))
          ops in
      contains j (selection (run_selects (fresh told) ops).cache g) ≡ drawn_of t.state t.node
run_selects-drawn told ops g j room =
    let k =
      steps-Tracks g j (has_key g told) ops (fresh told) 0 _ (omega arith)
        (fresh-Tracks told g j) in
    selection-contains (run_selects (fresh told) ops).cache g j (all-hold _ k.follows.is_hold)
    ∙ drawn-fits _ _ j _ _ _ k.follows
