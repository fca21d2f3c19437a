-- ===== src/Tests/Routing.antt =====
-- The registry and the router of the node on a node with two sources.
use gridwell.Base.{
  ℕ, ◌≡◌, refl, inl, inr, true, false, List, [], ◌∷◌, Option, none, some, Bytes, bytes, bytes_eq, ℤ,
  one_if, lookup, insert, contains, cut_byte, cut_prefix,
}
use gridwell.Wire.{Placement}
use gridwell.Rpc.Id.{split_id, qualify_id}
use gridwell.Rpc.Segment.{owner_namespace_of, head_segment, is_tile_segment, shape_of, tile_key}
use gridwell.Codec.Int64.{parses_int64}
use gridwell.Rpc.Event.{SelectRequest}
use gridwell.Server.Registry.{
  Registry, new_registry, register, switch_source, disable, stopped, is_disabled,
}
use gridwell.Server.Registry.Off.{
  RegistryOp, registers, switches_source, disables, run_registry, stops, run_registry-stops,
}
use gridwell.Server.Routing.{
  Node, Refusal, Resolved, route_to, resolve, delete_sent, select_sent, copy_sent,
}
use gridwell.Server.Routing.Answers.{route_to-comes_back}
use gridwell.Server.Routing.Table.{Routed, route_to-Routed}
use gridwell.Server.Routing.Refused.{IsRefused, disable-refuses}

abbrev some_ops : List (RegistryOp ℕ ℕ)
some_ops =
    registers (bytes "home") (bytes "sqlite") 1 none
    ∷ switches_source (bytes "gfiles") (bytes "Files") 7
    ∷ disables (bytes "gfiles")
    ∷ disables (bytes "home")
    ∷ disables (bytes "gfiles")
    ∷ []

run_registry-stops_example :
    stops (bytes "gfiles") new_registry some_ops
    ≡ one_if (is_disabled (run_registry new_registry some_ops) (bytes "gfiles"))
run_registry-stops_example = run_registry-stops (bytes "gfiles") some_ops

stops_once : stops (bytes "gfiles") new_registry some_ops ≡ 1
unfolding disable lookup insert contains bytes_eq
stops_once = refl

abbrev two_sources : Registry ℕ ℕ
two_sources =
    switch_source
      (register (register new_registry (bytes "gnode") (bytes "sqlite") 1 none) (bytes "gfiles")
        (bytes "fs") 2 none)
      (bytes "gfiles") (bytes "Files") 7

abbrev the_node : Node ℕ ℕ
the_node = record { node_id = bytes "gnode"; registry = two_sources }

abbrev an_answer : Resolved ℕ
an_answer = record { ns = 1; local = bytes "3"; uuid = bytes "gnode"; transit = false }

routed : route_to the_node (bytes "gnode/3") ≡ inr an_answer
unfolding route_to resolve split_id owner_namespace_of head_segment is_tile_segment shape_of
    tile_key parses_int64 cut_prefix cut_byte lookup insert bytes_eq
routed = refl

is_row : is_tile_segment (head_segment (bytes "42")) ≡ true
unfolding head_segment is_tile_segment shape_of tile_key parses_int64 cut_prefix cut_byte
is_row = refl

route_to-comes_back_example :
    route_to the_node (qualify_id (bytes "gnode") (bytes "42"))
    ≡ inr (record an_answer { local = bytes "42" })
route_to-comes_back_example =
    route_to-comes_back the_node (bytes "gnode/3") (bytes "42") an_answer routed refl
      (λ own. is_row)

stops_files :
    (disable two_sources (owner_namespace_of (bytes "gfiles/3") (bytes "gnode"))).1 ≡ stopped 7
unfolding disable owner_namespace_of split_id cut_byte lookup insert contains bytes_eq
stops_files = refl

abbrev later_ops : List (RegistryOp ℕ ℕ)
later_ops = switches_source (bytes "gfiles") (bytes "Again") 9 ∷ disables (bytes "gfiles") ∷ []

abbrev later : Node ℕ ℕ
later = record the_node {
  registry =
      run_registry (disable two_sources (owner_namespace_of (bytes "gfiles/3") (bytes "gnode"))).0
        later_ops;
}

disable-refuses_example :
    ((version : ℤ) (claim : Option Placement)
      → IsRefused (delete_sent later (bytes "gfiles/3") version claim))
    × ((req : SelectRequest)
        → req.grid_id ≡ bytes "gfiles/3"
        → req.all ≡ false
        → (why : Refusal) × (select_sent later req ≡ some (inl why)))
    × ((tile_id : Bytes) (x y : ℤ) → IsRefused (copy_sent later tile_id (bytes "gfiles/3") x y))
disable-refuses_example = disable-refuses the_node (bytes "gfiles/3") 7 later_ops refl stops_files

route_to-Routed_example : Routed the_node (bytes "gnode/3") (route_to the_node (bytes "gnode/3"))
route_to-Routed_example = route_to-Routed the_node (bytes "gnode/3")
