-- ===== src/Tests/Ids.antt =====
-- The id codec of api/rpc, run.
use gridwell.Base.{◌≡◌, refl, some, none, bytes, Bytes, All, arith, ◌++◌, [], ◌∷◌, has_byte, length}
use gridwell.Codec.Base64.{IsByte}
use gridwell.IdShape.{validate_segment, Draws, new_short_id}
use gridwell.IdShape.Mint.{new_short_id-valid}
use gridwell.Rpc.Id.{
  IsSegment, qualify_id, split_id, namespace_of, local_of, split-qualify, split_id-eq_some,
  namespace-local-qualify,
}
use gridwell.Rpc.Segment.{
  shape_row, shape_key, shape_namespace, shape_of, owner_namespace_of, tile_key, key_tile_id,
  shared_owner,
}
use gridwell.Rpc.Segment.Keys.{tile_key-key_tile_id, tile_key_respelled}
use gridwell.Rpc.Segment.Owner.{shared_owner_comm}
use gridwell.Rpc.Find.{parse_find_query}

row_shape : shape_of (bytes "42") ≡ shape_row
unfolding shape_of
row_shape = refl

key_shape : shape_of (bytes "~YQ") ≡ shape_key
unfolding shape_of
key_shape = refl

namespace_shape : shape_of (bytes "k3x9a2b") ≡ shape_namespace
unfolding shape_of
namespace_shape = refl

connection_owner : owner_namespace_of (bytes "n1/laptop/n2/7") (bytes "n1") ≡ bytes "n1/laptop"
unfolding owner_namespace_of
connection_owner = refl

home_owner : owner_namespace_of (bytes "n1/7") (bytes "n1") ≡ bytes "n1"
unfolding owner_namespace_of
home_owner = refl

id_query : (parse_find_query (bytes "  id: n1/7 ")).id ≡ bytes "n1/7"
unfolding parse_find_query
id_query = refl

text_query : (parse_find_query (bytes " red car  ")).text ≡ bytes "red car"
unfolding parse_find_query
text_query = refl

abbrev key : Bytes
key = bytes "a/b"

key-IsByte : All IsByte key
key-IsByte = omega arith

tile_key-key_tile_id_example : tile_key (key_tile_id key) ≡ some key
tile_key-key_tile_id_example = tile_key-key_tile_id key key-IsByte

tile_key_respelled_example : tile_key (bytes "~YS9i" ++ 10 ∷ []) ≡ some key
unfolding tile_key
tile_key_respelled_example = tile_key_respelled (bytes "~YS9i") key refl

n1-IsSegment : IsSegment (bytes "n1")
unfolding has_byte
n1-IsSegment = record { filled = refl; whole = refl }

far-IsSegment : IsSegment (bytes "far")
unfolding has_byte
far-IsSegment = record { filled = refl; whole = refl }

split-qualify_example :
    split_id (qualify_id (bytes "n1") (bytes "far/7")) ≡ some (bytes "n1", bytes "far/7")
split-qualify_example = split-qualify (bytes "n1") (bytes "far/7") n1-IsSegment

split_id-eq_some_example :
    (bytes "n1/far/7" ≡ qualify_id (bytes "n1") (bytes "far/7")) × IsSegment (bytes "n1")
unfolding split_id
split_id-eq_some_example =
    split_id-eq_some (bytes "n1/far/7") {uuid = bytes "n1"} {rest = bytes "far/7"} refl

namespace-local-qualify_example :
    (namespace_of (qualify_id (bytes "n1/far") (bytes "7")) ≡ bytes "n1/far")
    × (local_of (qualify_id (bytes "n1/far") (bytes "7")) ≡ bytes "7")
unfolding has_byte
namespace-local-qualify_example = namespace-local-qualify (bytes "n1/far") (bytes "7") refl

shared_owner_comm_example :
    shared_owner (bytes "p1/4") (bytes "p1/5") (bytes "n1")
    ≡ shared_owner (bytes "p1/5") (bytes "p1/4") (bytes "n1")
shared_owner_comm_example = shared_owner_comm (bytes "p1/4") (bytes "p1/5") (bytes "n1")

-- A source that draws the least value each time.
abbrev least_draws : Draws
least_draws = record { below = λ i n. 0; below_lt = λ i n h. h }

new_short_id-valid_example :
    (length (new_short_id least_draws) ≡ 7)
    × (validate_segment (new_short_id least_draws) ≡ none)
    × (shape_of (new_short_id least_draws) ≡ shape_namespace)
new_short_id-valid_example = new_short_id-valid least_draws

minted : new_short_id least_draws ≡ bytes "a000000"
unfolding new_short_id
minted = refl
