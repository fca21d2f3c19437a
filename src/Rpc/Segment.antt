-- ===== src/Rpc/Segment.antt =====
-- api/rpc/segment.go: what one segment of a chained id is, and which namespace a node routes an id to.
pub mod Keys
pub mod Owner
use gridwell.Base.{
  ℕ, ◌≡◌, refl, Bool, true, false, not, ◌&&◌, ◌||◌, List, [], ◌∷◌, ◌++◌, Option, none, some,
  if◌then◌else◌, Bytes, is_empty, cut_byte, cut_prefix, has_prefix, bytes_eq, is_some, bytes,
}
use gridwell.Codec.Int64.{parses_int64}
use gridwell.Codec.Base64.{encode, decode}
use gridwell.Rpc.Id.{slash, split_id}

-- SegmentShape
pub data SegmentShape : Type 0 where
  shape_namespace shape_row shape_key : SegmentShape

-- keyTilePrefix, '~'
abbrev pub tilde : ℕ
tilde = b'~'

pub key_tile_id : Bytes → Bytes
unfolding encode
key_tile_id key = tilde ∷ encode key

-- The segment past its "~", decoded.
abbrev pub decode_past_prefix : Option Bytes → Option Bytes
decode_past_prefix none = none
decode_past_prefix (some rest) = decode rest

-- TileKey: none is ok = false.
unfoldable pub tile_key : Bytes → Option Bytes
unfolding cut_prefix decode
tile_key seg = decode_past_prefix (cut_prefix (tilde ∷ []) seg)

unfoldable pub shape_of : Bytes → SegmentShape
unfolding parses_int64 tile_key
shape_of seg =
    if parses_int64 seg
    then shape_row
    else (if is_some (tile_key seg) then shape_key else shape_namespace)

abbrev is_tile_shape : SegmentShape → Bool
is_tile_shape shape_namespace = false
is_tile_shape shape_row = true
is_tile_shape shape_key = true

unfoldable pub is_tile_segment : Bytes → Bool
unfolding shape_of
is_tile_segment seg = is_tile_shape (shape_of seg)

-- rest up to its first slash, or all of it.
abbrev pub head_of_cut : Bytes → Option (Bytes × Bytes) → Bytes
head_of_cut rest none = rest
head_of_cut rest (some (a, b)) = a

unfoldable pub head_segment : Bytes → Bytes
unfolding cut_byte
head_segment rest = head_of_cut rest (cut_byte slash rest)

-- The body of OwnerNamespaceOf past its split.
abbrev pub owner_of_split : Option (Bytes × Bytes) → Bytes → Bytes
owner_of_split none node_id = []
owner_of_split (some (first, rest)) node_id =
    if not (bytes_eq first node_id) || is_empty node_id
    then first
    else (if is_empty (head_segment rest) || is_tile_segment (head_segment rest)
        then first
        else first ++ slash ∷ head_segment rest)

unfoldable pub owner_namespace_of : Bytes → Bytes → Bytes
unfolding split_id bytes_eq head_segment is_tile_segment
owner_namespace_of id node_id = owner_of_split (split_id id) node_id

pub shared_owner : Bytes → Bytes → Bytes → Bytes
unfolding owner_namespace_of
shared_owner a b node_id =
    let ns = owner_namespace_of a node_id in
    if is_empty ns || not (bytes_eq ns (owner_namespace_of b node_id)) then [] else ns

unfoldable pub chained_through : Bytes → Bytes → Bool
unfolding cut_prefix
chained_through id ns = not (is_empty ns) && has_prefix (ns ++ slash ∷ []) id
