-- ===== src/Rpc/Event/Entity.antt =====
-- api/rpc/event.go: EventKey and the entity of an event.
use gridwell.Base.{
  ℕ, ◌==◌, ◌≡◌, refl, ap, sym, ◌∙◌, ◌↔◌, true, false, [], ◌∷◌, ◌++◌, if◌then◌else◌, Bytes, bytes,
}
use gridwell.Wire.{
  Event, grid_changed, grid_framing_changed, selection_changed, tile_changed, tile_removed,
  plugin_health, empty,
}
use gridwell.Rpc.Event.{event_key}

pub data Aspect : Type 0 where
  grid_aspect framing_aspect selection_aspect content_aspect : Aspect
  tile_aspect removal_aspect health_aspect no_aspect : Aspect

-- What an event is about: an aspect and an id, which for a removal is the grid's and the tile's with a
-- slash between.
abbrev pub entity : Event → Aspect × Bytes
entity (grid_changed grid_id) = (grid_aspect, grid_id)
entity (grid_framing_changed grid_id cx cy zoom) = (framing_aspect, grid_id)
entity (selection_changed grid_id tile_ids) = (selection_aspect, grid_id)
entity (tile_changed tile content_changed) =
    (if content_changed then content_aspect else tile_aspect, tile.id)
entity (tile_removed grid_id tile_id) = (removal_aspect, grid_id ++ (bytes "/" ++ tile_id))
entity (plugin_health plugin_uuid others) = (health_aspect, plugin_uuid)
entity empty = (no_aspect, [])

abbrev spell : Aspect × Bytes → Bytes
spell (grid_aspect, id) = bytes "g/" ++ id
spell (framing_aspect, id) = bytes "f/" ++ id
spell (selection_aspect, id) = bytes "s/" ++ id
spell (content_aspect, id) = bytes "c/" ++ id
spell (tile_aspect, id) = bytes "t/" ++ id
spell (removal_aspect, id) = bytes "r/" ++ id
spell (health_aspect, id) = bytes "h/" ++ id
spell (no_aspect, id) = []

abbrev aspect_of : ℕ → Aspect
aspect_of c =
    if c == b'g'
    then grid_aspect
    else (if c == b'f'
        then framing_aspect
        else (if c == b's'
            then selection_aspect
            else (if c == b'c'
                then content_aspect
                else (if c == b't'
                    then tile_aspect
                    else (if c == b'r'
                        then removal_aspect
                        else (if c == b'h' then health_aspect else no_aspect))))))

abbrev read : Bytes → Aspect × Bytes
read [] = (no_aspect, [])
read (c ∷ []) = (no_aspect, [])
read (c ∷ d ∷ id) = (aspect_of c, id)

event_key-spell : (ev : Event) → event_key ev ≡ spell (entity ev)
unfolding event_key
event_key-spell (grid_changed grid_id) = refl
event_key-spell (grid_framing_changed grid_id cx cy zoom) = refl
event_key-spell (selection_changed grid_id tile_ids) = refl
event_key-spell (tile_changed tile true) = refl
event_key-spell (tile_changed tile false) = refl
event_key-spell (tile_removed grid_id tile_id) = refl
event_key-spell (plugin_health plugin_uuid others) = refl
event_key-spell empty = refl

read-event_key : (ev : Event) → read (event_key ev) ≡ entity ev
unfolding event_key
read-event_key (grid_changed grid_id) = refl
read-event_key (grid_framing_changed grid_id cx cy zoom) = refl
read-event_key (selection_changed grid_id tile_ids) = refl
read-event_key (tile_changed tile true) = refl
read-event_key (tile_changed tile false) = refl
read-event_key (tile_removed grid_id tile_id) = refl
read-event_key (plugin_health plugin_uuid others) = refl
read-event_key empty = refl

-- Two events have one key exactly when they are about one aspect of one entity, where a removal's entity
-- is its grid's id and its tile's with a slash between.
pub event_key-entity : (a b : Event) → (event_key a ≡ event_key b) ↔ (entity a ≡ entity b)
event_key-entity a b = (
  λ e. sym (read-event_key a) ∙ ap read e ∙ read-event_key b,
  λ e. event_key-spell a ∙ ap spell e ∙ sym (event_key-spell b),
)
