-- ===== src/Rpc/Transit.antt =====
-- api/rpc/transit.go: the id codec of a hop. Outbound a hop prepends one segment to every id; inbound
-- it peels that segment off the ids it forwards.
pub mod Peel
use gridwell.Base.{
  ℕ, zero, suc, ◌+◌, ◌≡◌, refl, Bool, true, false, not, ◌&&◌, ◌||◌, List, [], ◌∷◌, ◌++◌, map,
  Option, none, some, if◌then◌else◌, Bytes, is_empty, bytes, length, drop, cut_prefix,
}
use mathlib.Core.Option
use gridwell.Wire.{
  Tile, Placement, Grid, PluginGrid, Request, create_tile, move_tile, delete_tile, copy_tile,
  set_tile, set_framing, find, set_selection, one_id, Event, grid_changed, grid_framing_changed,
  selection_changed, tile_changed, tile_removed, plugin_health, empty,
}
use gridwell.Rpc.Find.{parse_find_query}
use gridwell.Rpc.Id.{qualify_id, qualify_optional_id, qualify_ids, qualify_ns, uuid_of}
use gridwell.Rpc.Segment.{owner_namespace_of, chained_through}

-- tileIDFields: the ids a Tile carries.
pub data TileIdField : Type 0 where
  f_id f_grid_id f_child_grid_id f_link_target_id f_shell_tmux f_presented_by : TileIdField

abbrev pub tile_id_fields : List TileIdField
tile_id_fields =
    f_id ∷ f_grid_id ∷ f_child_grid_id ∷ f_link_target_id ∷ f_shell_tmux ∷ f_presented_by ∷ []

abbrev pub field : TileIdField → Tile → Bytes
field f_id t = t.id
field f_grid_id t = t.grid_id
field f_child_grid_id t = t.child_grid_id
field f_link_target_id t = t.link_target_id
field f_shell_tmux t = t.shell_tmux
field f_presented_by t = t.presented_by

abbrev set_field : TileIdField → Bytes → Tile → Tile
set_field f_id v t = record t { id = v }
set_field f_grid_id v t = record t { grid_id = v }
set_field f_child_grid_id v t = record t { child_grid_id = v }
set_field f_link_target_id v t = record t { link_target_id = v }
set_field f_shell_tmux v t = record t { shell_tmux = v }
set_field f_presented_by v t = record t { presented_by = v }

abbrev is_optional : TileIdField → Bool
is_optional f_id = false
is_optional f_grid_id = false
is_optional _ = true

abbrev pub is_ref : TileIdField → Bool
is_ref f_child_grid_id = true
is_ref f_link_target_id = true
is_ref f_presented_by = true
is_ref _ = false

-- The loop over tileIDFields: the fields that `picks` takes are rewritten by `change`.
abbrev pub each_field :
    (TileIdField → Bool) → (TileIdField → Bytes → Bytes) → List TileIdField → Tile → Tile
each_field picks change [] t = t
each_field picks change (f ∷ fs) t =
    each_field picks change fs (if picks f then set_field f (change f (field f t)) t else t)

unfoldable pub qualify_field : Bytes → Bool → Bytes → Bytes
unfolding qualify_id
qualify_field prefix optional id =
    if not (is_empty id) || not optional then qualify_id prefix id else id

unfoldable pub transit_qualify_tile : Bytes → Tile → Tile
transit_qualify_tile prefix t =
    each_field (λ f. true) (λ f. qualify_field prefix (is_optional f)) tile_id_fields t

unfoldable transit_qualify_tiles : Bytes → List Tile → List Tile
transit_qualify_tiles prefix tiles = map (transit_qualify_tile prefix) tiles

pub qualify_own_ids : Bytes → Tile → Tile
qualify_own_ids uuid t =
    each_field (λ f. not (is_ref f)) (λ f. qualify_field uuid (is_optional f)) tile_id_fields t

pub record Hop : Type 0 where
  pub seg : Bytes
  pub via : Bytes
  pub transit : Bool

unfoldable pub inbound_hop : Bytes → Bytes → Bool → Hop
inbound_hop routed node_id transit = record {
  seg = uuid_of routed;
  via = owner_namespace_of routed node_id;
  transit = transit;
}

-- id[len(h.Seg)+1:], which is in range for the hops of inbound_hop.
pub peel_id : Hop → Bytes → Bytes
peel_id h id =
    if not (is_empty h.seg) && chained_through id h.via then drop (suc (length h.seg)) id else id

pub peel_tile : Hop → Tile → Tile
peel_tile h t = each_field (λ f. not (is_ref f) || h.transit) (λ f. peel_id h) tile_id_fields t

abbrev pub peel_claim : Hop → Placement → Placement
peel_claim h c = record c { grid_id = peel_id h c.grid_id }

peel_find_query : Hop → Bytes → Bytes
unfolding peel_id
peel_find_query h query =
    let q = parse_find_query query in if is_empty q.id then query else bytes "id:" ++ peel_id h q.id

pub peel_request : Hop → Request → Request
unfolding peel_tile peel_id peel_find_query
peel_request h (create_tile grid_id tile others) =
    create_tile (peel_id h grid_id) (Option.map (peel_tile h) tile) others
peel_request h (move_tile tile_id grid_id x y w h' claim) =
    move_tile (peel_id h tile_id) (peel_id h grid_id) x y w h' (Option.map (peel_claim h) claim)
peel_request h (delete_tile tile_id claim_version claim) =
    delete_tile (peel_id h tile_id) claim_version (Option.map (peel_claim h) claim)
peel_request h (copy_tile tile_id dest_grid_id x y) =
    copy_tile (peel_id h tile_id) (peel_id h dest_grid_id) x y
peel_request h (set_tile tile_id version tile others) =
    set_tile (peel_id h tile_id) version (Option.map (peel_tile h) tile) others
peel_request h (set_framing tile_id root_grid_id cx cy zoom) =
    set_framing (peel_id h tile_id) (peel_id h root_grid_id) cx cy zoom
peel_request h (find query scope grid_id others) =
    find (peel_find_query h query) [] (peel_id h grid_id) others
peel_request h (set_selection grid_id add remove clear recurse all_grids) =
    set_selection (peel_id h grid_id) (map (peel_id h) add) (map (peel_id h) remove) clear recurse
      all_grids
peel_request h (one_id id others) = one_id id others

qualify_plugin_grids : Bytes → List PluginGrid → List PluginGrid
unfolding qualify_optional_id
qualify_plugin_grids prefix grids =
    map (λ (g : PluginGrid). record g { grid_id = qualify_optional_id prefix g.grid_id }) grids

abbrev or_else : Option Bool → Bool → Option Bool
or_else none b = some b
or_else (some a) b = some a

unfoldable transit_qualify_grid : Bytes → Grid → Grid
unfolding qualify_id qualify_ids qualify_optional_id qualify_ns qualify_plugin_grids
transit_qualify_grid prefix g = record g {
  accepts_tiles = or_else g.accepts_tiles g.writable;
  moves = or_else g.moves (not g.host_content);
  id = qualify_id prefix g.id;
  selection = qualify_ids prefix g.selection;
  scratch_grid_id = qualify_optional_id prefix g.scratch_grid_id;
  node_ns = qualify_ns prefix g.node_ns;
  plugin_grids = qualify_plugin_grids prefix g.plugin_grids;
}

-- An empty uuid means the namespace that the event rode in from.
qualify_event_ids : Bytes → (Tile → Tile) → Event → Event
unfolding qualify_id qualify_ids
qualify_event_ids prefix qualify_tile (grid_changed grid_id) =
    grid_changed (qualify_id prefix grid_id)
qualify_event_ids prefix qualify_tile (grid_framing_changed grid_id cx cy zoom) =
    grid_framing_changed (qualify_id prefix grid_id) cx cy zoom
qualify_event_ids prefix qualify_tile (selection_changed grid_id tile_ids) =
    selection_changed (qualify_id prefix grid_id) (qualify_ids prefix tile_ids)
qualify_event_ids prefix qualify_tile (tile_changed tile content_changed) =
    tile_changed (qualify_tile tile) content_changed
qualify_event_ids prefix qualify_tile (tile_removed grid_id tile_id) =
    tile_removed (qualify_id prefix grid_id) (qualify_id prefix tile_id)
qualify_event_ids prefix qualify_tile (plugin_health plugin_uuid others) =
    plugin_health (if is_empty plugin_uuid then prefix else qualify_id prefix plugin_uuid) others
qualify_event_ids prefix qualify_tile empty = empty

unfoldable transit_qualify_event : Bytes → Event → Event
unfolding transit_qualify_tile qualify_event_ids
transit_qualify_event prefix ev = qualify_event_ids prefix (transit_qualify_tile prefix) ev
