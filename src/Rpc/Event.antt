-- ===== src/Rpc/Event.antt =====
-- api/rpc/event.go: how a selection changes, which selects are refused, and the entity an event is about.
pub mod Select
pub mod Entity
use gridwell.Base.{
  Bool, true, false, not, ◌&&◌, ◌||◌, List, [], ◌∷◌, ◌++◌, if◌then◌else◌, Bytes, bytes, is_empty,
  contains, bytes-Eq, sorted, compact, delete_func, Option, none, some,
}
use gridwell.Wire.{
  Event, grid_changed, grid_framing_changed, selection_changed, tile_changed, tile_removed,
  plugin_health, empty,
}

-- ApplySelect; nil is the empty list.
pub apply_select : List Bytes → List Bytes → List Bytes → List Bytes
apply_select set add remove =
    let out = delete_func (λ id. contains id remove) (set ++ add) in
    if is_empty out then [] else compact (sorted out)

-- The fields of a SetSelectionRequest that SelectRefusal reads.
pub record SelectRequest : Type 0 where
  pub grid_id : Bytes
  pub add : List Bytes
  pub remove : List Bytes
  pub clear : Bool
  pub recurse : Bool
  pub all : Bool

-- The refusals, by their text.
pub data SelectRefusal : Type 0 where
  all_names_more grid_unnamed recurse_without_clear : SelectRefusal

-- SelectRefusal: none is "".
pub select_refusal : SelectRequest → Option SelectRefusal
select_refusal req =
    if req.all
      && (not req.clear
          || not (is_empty req.grid_id)
          || not (is_empty req.add)
          || not (is_empty req.remove)
          || req.recurse)
    then some all_names_more
    else (if req.all
        then none
        else (if is_empty req.grid_id
            then some grid_unnamed
            else (if req.recurse && not req.clear then some recurse_without_clear else none)))

-- EventKey
pub event_key : Event → Bytes
event_key (grid_changed grid_id) = bytes "g/" ++ grid_id
event_key (grid_framing_changed grid_id cx cy zoom) = bytes "f/" ++ grid_id
event_key (selection_changed grid_id tile_ids) = bytes "s/" ++ grid_id
event_key (tile_changed tile content_changed) =
    if content_changed then bytes "c/" ++ tile.id else bytes "t/" ++ tile.id
event_key (tile_removed grid_id tile_id) = bytes "r/" ++ (grid_id ++ (bytes "/" ++ tile_id))
event_key (plugin_health plugin_uuid others) = bytes "h/" ++ plugin_uuid
event_key empty = []
