-- ===== src/Wire.antt =====
-- api/gridwell/v1/data.proto: the messages whose ids a hop rewrites. A double is its 64-bit pattern;
-- `others` is the encoding of the fields that no modelled function reads, which a clone carries.
use gridwell.Base.{ℕ, ℤ, Bool, List, Option, Bytes}

pub record Tile : Type 0 where
  pub id : Bytes
  pub version : ℤ
  pub grid_id : Bytes
  pub kind : Bytes
  pub x : ℤ
  pub y : ℤ
  pub w : ℤ
  pub h : ℤ
  pub view_zoom : ℕ
  pub view_cx : ℕ
  pub view_cy : ℕ
  pub child_grid_id : Bytes
  pub alt_text : Bytes
  pub link : Bool
  pub link_target_id : Bytes
  pub serves_page : Bool
  pub shell_tmux : Bytes
  pub content_stamp : Bytes
  pub presented_by : Bytes
  pub others : Bytes

pub record Placement : Type 0 where
  pub grid_id : Bytes
  pub x : ℤ
  pub y : ℤ
  pub w : ℤ
  pub h : ℤ

-- The requests that PeelRequest takes apart, and those that carry one id, with that id.
pub data Request : Type 0 where
  create_tile : (grid_id : Bytes) (tile : Option Tile) (others : Bytes) → Request
  move_tile : (tile_id grid_id : Bytes) (x y w h : ℤ) (claim : Option Placement) → Request
  delete_tile : (tile_id : Bytes) (claim_version : ℤ) (claim : Option Placement) → Request
  copy_tile : (tile_id dest_grid_id : Bytes) (x y : ℤ) → Request
  set_tile : (tile_id : Bytes) (version : ℤ) (tile : Option Tile) (others : Bytes) → Request
  set_framing : (tile_id root_grid_id : Bytes) (cx cy zoom : ℕ) → Request
  find : (query scope grid_id : Bytes) (others : Bytes) → Request
  set_selection :
      (grid_id : Bytes) (add remove : List Bytes) (clear recurse all_grids : Bool) → Request
  one_id : (id : Bytes) (others : Bytes) → Request

pub data Event : Type 0 where
  grid_changed : (grid_id : Bytes) → Event
  grid_framing_changed : (grid_id : Bytes) (view_cx view_cy view_zoom : ℕ) → Event
  selection_changed : (grid_id : Bytes) (tile_ids : List Bytes) → Event
  tile_changed : (tile : Tile) (content_changed : Bool) → Event
  tile_removed : (grid_id tile_id : Bytes) → Event
  plugin_health : (plugin_uuid : Bytes) (others : Bytes) → Event
  empty : Event

pub record PluginGrid : Type 0 where
  pub grid_id : Bytes
  pub others : Bytes

pub record Grid : Type 0 where
  pub id : Bytes
  pub writable : Bool
  pub scratch_grid_id : Bytes
  pub node_ns : Bytes
  pub plugin_grids : List PluginGrid
  pub host_content : Bool
  pub accepts_tiles : Option Bool
  pub selection : List Bytes
  pub moves : Option Bool
  pub others : Bytes
