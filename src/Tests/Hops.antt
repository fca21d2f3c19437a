-- ===== src/Tests/Hops.antt =====
-- The peel of api/rpc/transit.go at concrete hops.
use gridwell.Base.{◌≡◌, refl, pos, true, false, some, bytes, []}
use gridwell.Wire.{Tile, Request, move_tile}
use gridwell.Rpc.Id.{qualify_id, split_id}
use gridwell.Rpc.Segment.{owner_namespace_of, chained_through}
use gridwell.Rpc.Transit.{
  qualify_field, Hop, inbound_hop, peel_id, peel_tile, transit_qualify_tile, peel_request,
}
use gridwell.Rpc.Transit.Peel.{
  IsDirect, peel_id-qualify, peel_id-inbound_hop, peel_tile-transit_qualify, qualify_request,
  peel_request-qualify,
}

abbrev far_hop : Hop
far_hop = record { seg = bytes "far"; via = bytes "far"; transit = true }

abbrev leaf_hop : Hop
leaf_hop = record { seg = bytes "p1"; via = bytes "p1"; transit = false }

far_hop-IsDirect : IsDirect far_hop
far_hop-IsDirect = record { filled = refl; direct = refl }

leaf_hop-IsDirect : IsDirect leaf_hop
leaf_hop-IsDirect = record { filled = refl; direct = refl }

-- A leaf link on a far node's grid.
abbrev link_tile : Tile
link_tile = record {
  id = bytes "n2/7";
  version = pos 3;
  grid_id = bytes "n2/1";
  kind = bytes "text";
  x = pos 0;
  y = pos 0;
  w = pos 1;
  h = pos 1;
  view_zoom = 0;
  view_cx = 0;
  view_cy = 0;
  child_grid_id = [];
  alt_text = bytes "notes";
  link = true;
  link_target_id = bytes "p9/4";
  serves_page = false;
  shell_tmux = [];
  content_stamp = [];
  presented_by = [];
  others = [];
}

linked : (transit_qualify_tile (bytes "far") link_tile).link_target_id ≡ bytes "far/p9/4"
unfolding transit_qualify_tile qualify_field
linked = refl

peel_id-qualify_example : peel_id far_hop (qualify_id (bytes "far") (bytes "n2/7")) ≡ bytes "n2/7"
unfolding chained_through qualify_id
peel_id-qualify_example = peel_id-qualify far_hop (bytes "n2/7") refl refl

peel_id-inbound_hop_example :
    bytes "n1/far/n2/9"
    ≡ qualify_id
        (bytes "n1")
        (peel_id (inbound_hop (bytes "n1/far/n2/7") (bytes "n1") true) (bytes "n1/far/n2/9"))
unfolding split_id inbound_hop chained_through owner_namespace_of
peel_id-inbound_hop_example =
    peel_id-inbound_hop (bytes "n1/far/n2/7") (bytes "n1") (bytes "n1/far/n2/9") true
      {first = bytes "n1"} {rest = bytes "far/n2/7"} refl refl

peel_tile-transit_qualify_example :
    peel_tile far_hop (transit_qualify_tile (bytes "far") link_tile) ≡ link_tile
peel_tile-transit_qualify_example =
    peel_tile-transit_qualify far_hop link_tile far_hop-IsDirect refl

abbrev a_move : Request
a_move =
    move_tile (bytes "n2/7") (bytes "n2/1") (pos 2) (pos 3) (pos 1) (pos 1)
      (some (record { grid_id = bytes "n2/1"; x = pos 0; y = pos 0; w = pos 1; h = pos 1 }))

peel_request-qualify_example : peel_request far_hop (qualify_request far_hop a_move) ≡ a_move
peel_request-qualify_example = peel_request-qualify far_hop a_move far_hop-IsDirect refl refl
