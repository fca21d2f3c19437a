-- ===== src/Tests/Events.antt =====
-- The selection and the event keys of api/rpc/event.go on concrete inputs.
use gridwell.Base.{
  ◌≡◌, ◌↔◌, true, not, ◌&&◌, ◌||◌, bytes, [], ◌∷◌, contains, bytes-Eq, is_ascending,
}
use gridwell.Wire.{tile_removed, grid_changed}
use gridwell.Rpc.Event.{apply_select, event_key}
use gridwell.Rpc.Event.Select.{apply_select-contains}
use gridwell.Rpc.Event.Entity.{entity, event_key-entity}

apply_select-contains_example :
    (contains
        (bytes "a/2")
        (apply_select (bytes "a/3" ∷ []) (bytes "a/2" ∷ bytes "a/3" ∷ []) (bytes "a/9" ∷ []))
      ≡ ((contains (bytes "a/2") (bytes "a/3" ∷ [])
            || contains (bytes "a/2") (bytes "a/2" ∷ bytes "a/3" ∷ []))
          && not (contains (bytes "a/2") (bytes "a/9" ∷ []))))
    × (is_ascending
          (apply_select (bytes "a/3" ∷ []) (bytes "a/2" ∷ bytes "a/3" ∷ []) (bytes "a/9" ∷ []))
        ≡ true)
apply_select-contains_example =
    apply_select-contains (bytes "a/3" ∷ []) (bytes "a/2" ∷ bytes "a/3" ∷ []) (bytes "a/9" ∷ [])
      (bytes "a/2")

event_key-entity_example :
    (event_key (tile_removed (bytes "a/1") (bytes "a/7")) ≡ event_key (grid_changed (bytes "a/1")))
    ↔ (entity (tile_removed (bytes "a/1") (bytes "a/7")) ≡ entity (grid_changed (bytes "a/1")))
event_key-entity_example =
    event_key-entity (tile_removed (bytes "a/1") (bytes "a/7")) (grid_changed (bytes "a/1"))
