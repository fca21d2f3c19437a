-- ===== src/Tests/Links.antt =====
-- The routes of an address and the graph of connections, run.
use gridwell.Base.{
  ◌≡◌, refl, ◌≤◌, true, false, some, Option, bytes, [], ◌∷◌, List, ◌++◌, ◌↔◌, length, bytes_eq,
}
use gridwell.Rpc.Address.{match_address}
use gridwell.Rpc.Address.Glob.{Matches, match_address_iff}
use gridwell.Rpc.Route.{
  Route, decide, decide_route, presents_any, PluginRow, routing, routing_from, declared_by, sent_to,
}
use gridwell.Rpc.Route.First.{Decides, decide-Decides}
use gridwell.Rpc.Reach.{
  Reach, ReachEdge, respell, spelled, unreachable, chain_of, prefix_of, tail_of, route, route_from,
}
use gridwell.Rpc.Reach.Spelling.{chain_of-whole}
use gridwell.Rpc.Reach.Search.{IsRoute, route_ends, route-IsRoute}

matches_nested :
    match_address (bytes "https://x.com/*/issues/*") (bytes "https://x.com/a/b/issues/9") ≡ true
unfolding match_address
matches_nested = refl

overlap_refused : match_address (bytes "ab*ba") (bytes "aba") ≡ false
unfolding match_address
overlap_refused = refl

abbrev two_nodes : Reach
two_nodes =
    (
      bytes "n1",
      record {
        label = [];
        edges = record { conn = bytes "far"; lands = bytes "n2"; label = [] } ∷ [];
      },
    )
    ∷ (
      bytes "n2",
      record {
        label = [];
        edges = record { conn = bytes "back"; lands = bytes "n1"; label = [] } ∷ [];
      },
    )
    ∷ []

respelled_back :
    respell two_nodes (bytes "n1") (bytes "n1/far/n2/4") (bytes "n1/9") 4
    ≡ spelled (bytes "n1/far/n2/back/n1/9")
unfolding respell
respelled_back = refl

one_way :
    respell (two_nodes) (bytes "n1") (bytes "n1/far/n2/4") (bytes "n1/gone/n3/9") 4
    ≡ unreachable (record { holder = bytes "n2"; target = [] })
unfolding respell
one_way = refl

match_address_iff_example :
    (match_address (bytes "https://x.com/*") (bytes "https://x.com/a/b") ≡ true)
    ↔ Matches (bytes "https://x.com/*") (bytes "https://x.com/a/b")
match_address_iff_example = match_address_iff (bytes "https://x.com/*") (bytes "https://x.com/a/b")

abbrev tickets : PluginRow
tickets = record {
  uuid = bytes "p1";
  presents = bytes "https://t.io/*" ∷ [];
  unanswered = [];
  info_error = [];
}

abbrev ticket_routes : List Route
ticket_routes =
    record { glob = bytes "http://*"; plugin = []; outside = true }
    ∷ record { glob = bytes "*"; plugin = bytes "p1"; outside = false }
    ∷ []

presented_ticket :
    decide (bytes "https://t.io/4") ticket_routes (routing (tickets ∷ []))
    ≡ sent_to (record { glob = bytes "*"; plugin = bytes "p1"; outside = false })
unfolding decide decide_route presents_any match_address routing routing_from declared_by bytes_eq
presented_ticket = refl

decide-Decides_example :
    Decides
      (bytes "https://t.io/4")
      (routing (tickets ∷ []))
      ticket_routes
      (decide (bytes "https://t.io/4") ticket_routes (routing (tickets ∷ [])))
decide-Decides_example =
    decide-Decides (bytes "https://t.io/4") ticket_routes (routing (tickets ∷ []))

chain_of-whole_example :
    prefix_of (chain_of (bytes "n1/far/n2/4") (bytes "n1"))
      ++ tail_of (chain_of (bytes "n1/far/n2/4") (bytes "n1"))
    ≡ bytes "n1/far/n2/4"
chain_of-whole_example = (chain_of-whole (bytes "n1/far/n2/4") (bytes "n1")).0

abbrev far_edge : ReachEdge
far_edge = record { conn = bytes "far"; lands = bytes "n2"; label = [] }

route_ends_example :
    (a : Option (List ReachEdge)) × (route_from 4 two_nodes
        (bytes "n2")
        3
        (bytes "n1" ∷ [])
        (record { node = bytes "n1"; path = [] } ∷ [])
      ≡ some a)
    × (route two_nodes (bytes "n1") (bytes "n2") 3 ≡ a)
route_ends_example = route_ends two_nodes (bytes "n1") (bytes "n2") 3

route-IsRoute_example :
    IsRoute two_nodes (bytes "n1") (far_edge ∷ []) (bytes "n2") × (length (far_edge ∷ []) ≤ 3)
unfolding route
route-IsRoute_example =
    route-IsRoute two_nodes (bytes "n1") (bytes "n2") 3 {path = far_edge ∷ []} refl
