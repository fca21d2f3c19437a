-- ===== src/Client/Selections/Owed.antt =====
-- client/cache/selection.go with postSelection of client/wasm/selection.go: the selects of a grid, the one
-- write of them that is in flight, and what each tile awaits.
use gridwell.Base.{
  ℕ, ◌+◌, Bool, true, false, ◌&&◌, List, [], ◌∷◌, Option, none, some, if◌then◌else◌, Bytes,
  bytes_eq, bytes-Eq, lookup, insert, delete, has_key, contains, length,
}
use gridwell.Client.Selections.{
  SelectSent, SelectCache, select, selection_up, answered, select_locked,
}

-- What a user, the chain of a grid's writes and the stream do. fails is a write that will be sent again.
pub data SelectOp : Type 0 where
  selects : Bytes → List Bytes → List Bytes → SelectOp
  sends lands refuses fails : Bytes → SelectOp
  tells : Bytes → List Bytes → SelectOp

-- The cache, and of each grid the write that is in flight.
pub record Selecting : Type 0 where
  pub cache : SelectCache
  pub flight : List (Bytes × SelectSent)

abbrev pub answer_flight : Selecting → Bytes → Bool → Option SelectSent → Selecting
answer_flight w g accepted none = w
answer_flight w g accepted (some s) = record {
  cache = answered w.cache g s accepted;
  flight = delete g w.flight;
}

abbrev pub select_step : Selecting → SelectOp → Selecting
select_step w (selects g add remove) = record w { cache = select w.cache g add remove }
select_step w (sends g) =
    if has_key g w.flight
    then w
    else record w { flight = insert g (selection_up w.cache g) w.flight }
select_step w (lands g) = answer_flight w g true (lookup g w.flight)
select_step w (refuses g) = answer_flight w g false (lookup g w.flight)
select_step w (fails g) = record w { flight = delete g w.flight }
select_step w (tells g ids) = record w { cache = (select_locked w.cache g ids).0 }

abbrev pub run_selects : Selecting → List SelectOp → Selecting
run_selects w [] = w
run_selects w (op ∷ ops) = run_selects (select_step w op) ops

-- What one tile of one grid awaits: nothing, a send, an answer, or an answer to an older word and then a
-- send.
pub data TileState : Type 0 where
  settled : TileState
  owed flying : Bool → TileState
  reselected : Bool → Bool → TileState

-- The tile with the node's word on it, and whether the grid has a write in flight.
pub record TileView : Type 0 where
  pub state : TileState
  pub node : Bool
  pub busy : Bool

abbrev pub drawn_of : TileState → Bool → Bool
drawn_of settled node = node
drawn_of (owed b) node = b
drawn_of (flying b) node = b
drawn_of (reselected p b) node = b

abbrev pub tap_tile : Bool → TileState → TileState
tap_tile b settled = owed b
tap_tile b (owed c) = owed b
tap_tile b (flying p) = reselected p b
tap_tile b (reselected p c) = reselected p b

abbrev pub send_tile : TileState → TileState
send_tile (owed b) = flying b
send_tile t = t

abbrev pub answer_tile : TileState → TileState
answer_tile settled = settled
answer_tile (owed b) = owed b
answer_tile (flying b) = settled
answer_tile (reselected p b) = owed b

abbrev pub fail_tile : TileState → TileState
fail_tile settled = settled
fail_tile (owed b) = owed b
fail_tile (flying b) = owed b
fail_tile (reselected p b) = owed b

abbrev pub landed_word : TileState → Bool → Bool
landed_word settled node = node
landed_word (owed b) node = node
landed_word (flying b) node = b
landed_word (reselected p b) node = p

abbrev pub answer_view : Bool → TileView → TileView
answer_view accepted t =
    if t.busy
    then record {
      state = answer_tile t.state;
      node = if accepted then landed_word t.state t.node else t.node;
      busy = false;
    }
    else t

abbrev pub tap_view : Bool → Bool → TileView → TileView
tap_view named b t = if named then record t { state = tap_tile b t.state } else t

-- What an operation on the tile's grid does to it; cached says whether the grid is cached.
abbrev pub tile_step : Bool → Bytes → TileView → SelectOp → TileView
tile_step cached j t (selects g add remove) =
    tap_view (contains j remove) false (tap_view (contains j add) true t)
tile_step cached j t (sends g) =
    if t.busy then t else record t { state = send_tile t.state; busy = true }
tile_step cached j t (lands g) = answer_view true t
tile_step cached j t (refuses g) = answer_view false t
tile_step cached j t (fails g) =
    if t.busy then record t { state = fail_tile t.state; busy = false } else t
tile_step cached j t (tells g ids) = record t { node = cached && contains j ids }

abbrev pub grid_of_op : SelectOp → Bytes
grid_of_op (selects g add remove) = g
grid_of_op (sends g) = g
grid_of_op (lands g) = g
grid_of_op (refuses g) = g
grid_of_op (fails g) = g
grid_of_op (tells g ids) = g

abbrev pub run_tile : Bool → Bytes → Bytes → TileView → List SelectOp → TileView
run_tile cached g j t [] = t
run_tile cached g j t (op ∷ ops) =
    run_tile cached g j (if bytes_eq (grid_of_op op) g then tile_step cached j t op else t) ops

-- The tiles that a run's selects name.
abbrev pub taps_of : SelectOp → ℕ
taps_of (selects g add remove) = length add + length remove
taps_of op = 0

abbrev pub taps_in : List SelectOp → ℕ
taps_in [] = 0
taps_in (op ∷ ops) = taps_of op + taps_in ops
