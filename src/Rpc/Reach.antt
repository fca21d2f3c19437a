-- ===== src/Rpc/Reach.antt =====
-- api/rpc/reach.go: the graph of connections that a node can see, and how a link is spelled for the
-- node that holds it.
pub mod Spelling
pub mod Search
use gridwell.Base.{
  ℕ, zero, suc, ◌+◌, ◌≡◌, refl, Bool, true, false, not, ◌&&◌, ◌||◌, List, [], ◌∷◌, ◌++◌, map,
  Option, none, some, if◌then◌else◌, ◌==◌, Bytes, bytes, is_empty, bytes_eq, length, cut_prefix,
  cut_byte, split, join,
}
use gridwell.Rpc.Id.{slash, split_id, uuid_of, local_of}
use gridwell.Rpc.Segment.{
  SegmentShape, shape_namespace, shape_row, shape_key, shape_of, owner_namespace_of,
  chained_through, head_segment,
}

pub record ReachEdge : Type 0 where
  pub conn : Bytes
  pub lands : Bytes
  pub label : Bytes

pub record ReachNode : Type 0 where
  pub label : Bytes
  pub edges : List ReachEdge

-- The map of nodes by id, with each id once.
abbrev pub Reach : Type 0
Reach = List (Bytes × ReachNode)

-- r[at], none where the map has no such key.
pub node_at : Reach → Bytes → Option ReachNode
unfolding bytes_eq
node_at [] at = none
node_at ((id, n) ∷ r) at = if bytes_eq id at then some n else node_at r at

-- The fields of a PluginInfo that ReachEdges reads.
pub record ConnectionRow : Type 0 where
  pub uuid : Bytes
  pub label : Bytes
  pub root_grid_id : Bytes
  pub connection : Bool

abbrev edge_of_rest : ConnectionRow → Option Bytes → Option ReachEdge
edge_of_rest p none = none
edge_of_rest p (some rest) =
    some (record { conn = local_of p.uuid; lands = head_segment rest; label = p.label })

-- One row of the loop: the landing is the segment that the root adds after the row's uuid.
reach_edge : ConnectionRow → Option ReachEdge
unfolding cut_prefix local_of head_segment
reach_edge p =
    if not p.connection
    then none
    else edge_of_rest p (cut_prefix (p.uuid ++ slash ∷ []) p.root_grid_id)

abbrev push_edge : Option ReachEdge → List ReachEdge → List ReachEdge
push_edge none es = es
push_edge (some e) es = e ∷ es

unfoldable reach_edges : List ConnectionRow → List ReachEdge
unfolding reach_edge
reach_edges [] = []
reach_edges (p ∷ ps) = push_edge (reach_edge p) (reach_edges ps)

-- ChainOf: the connections, the segments before the tail, and those of the tail.
pub record Chain : Type 0 where
  pub conns : List Bytes
  pub hops : List Bytes
  pub left : List Bytes

abbrev pub push_hop : Bytes → Bytes → Chain → Chain
push_hop node conn c = record { conns = conn ∷ c.conns; hops = node ∷ conn ∷ c.hops; left = c.left }

abbrev pub is_namespace : SegmentShape → Bool
is_namespace shape_namespace = true
is_namespace shape_row = false
is_namespace shape_key = false

-- The loop of ChainOf from one position; `at_start` is pos == 0.
pub chain_loop : Bool → Bytes → List Bytes → Chain
unfolding shape_of bytes_eq
chain_loop at_start node_id [] = record { conns = []; hops = []; left = [] }
chain_loop at_start node_id (a ∷ []) = record { conns = []; hops = []; left = a ∷ [] }
chain_loop at_start node_id (a ∷ b ∷ []) = record { conns = []; hops = []; left = a ∷ b ∷ [] }
chain_loop at_start node_id (a ∷ b ∷ c ∷ segs) =
    let further = push_hop a b (chain_loop false node_id (c ∷ segs)) in
    if is_namespace (shape_of b) && not (at_start && (is_empty node_id || not (bytes_eq a node_id)))
    then further
    else record { conns = []; hops = []; left = a ∷ b ∷ c ∷ segs }

pub chain_of : Bytes → Bytes → Chain
unfolding split chain_loop
chain_of id node_id = chain_loop true node_id (split slash id)

pub prefix_of : Chain → Bytes
unfolding join
prefix_of c = if is_empty c.hops then [] else join slash c.hops ++ slash ∷ []

pub tail_of : Chain → Bytes
unfolding join
tail_of c = join slash c.left

-- The edge that Walk takes for a connection: the first of its name. A landing of "" is none.
next_by : Bytes → List ReachEdge → Bytes
unfolding bytes_eq
next_by conn [] = []
next_by conn (e ∷ es) = if bytes_eq e.conn conn then e.lands else next_by conn es

abbrev pub edges_of : Option ReachNode → List ReachEdge
edges_of none = []
edges_of (some n) = n.edges

-- A node that is not in the map has no edge, so the walk ends there either way.
abbrev step_to : Bytes → Option Bytes
step_to [] = none
step_to (c ∷ cs) = some (c ∷ cs)

abbrev then_walk : Option Bytes → (Bytes → Option Bytes) → Option Bytes
then_walk none go = none
then_walk (some at) go = go at

walk : Reach → List Bytes → Bytes → Option Bytes
unfolding node_at next_by
walk r [] at = some at
walk r (c ∷ cs) at = then_walk (step_to (next_by c (edges_of (node_at r at)))) (walk r cs)

-- A node that Route has yet to look at, and the path to it.
pub record Visit : Type 0 where
  pub node : Bytes
  pub path : List ReachEdge

pub has_seen : Bytes → List Bytes → Bool
unfolding bytes_eq
has_seen n [] = false
has_seen n (s ∷ seen) = bytes_eq s n || has_seen n seen

pub record Frontier : Type 0 where
  pub seen : List Bytes
  pub queue : List Visit

-- The body of the loop over a node's edges: a landing seen before is passed over.
pub visit_edge : List ReachEdge → ReachEdge → Frontier → Frontier
unfolding has_seen
visit_edge path e f = if has_seen e.lands f.seen then f else record {
  seen = e.lands ∷ f.seen;
  queue = f.queue ++ record { node = e.lands; path = path ++ e ∷ [] } ∷ [];
}

pub visit_edges : List ReachEdge → List ReachEdge → Frontier → Frontier
unfolding visit_edge
visit_edges path [] f = f
visit_edges path (e ∷ es) f = visit_edges path es (visit_edge path e f)

-- The outer loop. The outer none is out of fuel; the inner none is ok = false.
pub route_from : ℕ → Reach → Bytes → ℕ → List Bytes → List Visit → Option (Option (List ReachEdge))
unfolding node_at visit_edges bytes_eq
route_from zero r to max_hops seen queue = none
route_from (suc fuel) r to max_hops seen [] = some none
route_from (suc fuel) r to max_hops seen (v ∷ queue) =
    let f =
      visit_edges v.path (edges_of (node_at r v.node)) (record { seen = seen; queue = queue }) in
    let skip = route_from fuel r to max_hops seen queue in
    let expand = route_from fuel r to max_hops f.seen f.queue in
    if bytes_eq v.node to
    then some (some v.path)
    else (if length v.path == max_hops then skip else expand)

abbrev pub edge_count : Reach → ℕ
edge_count [] = 0
edge_count ((id, n) ∷ r) = length n.edges + edge_count r

-- What a search that ran out of fuel would answer; Search.route-total shows that none does.
abbrev pub answer_of : Option (Option (List ReachEdge)) → Option (List ReachEdge)
answer_of none = none
answer_of (some a) = a

-- Route: none is ok = false. Every landing is queued once, so one round for each edge and one for
-- the start are enough, and one more to find the queue empty.
unfoldable pub route : Reach → Bytes → Bytes → ℕ → Option (List ReachEdge)
unfolding route_from
route r start to max_hops = answer_of (
    route_from (suc (suc (edge_count r))) r to max_hops (start ∷ [])
      (record { node = start; path = [] } ∷ []))

-- Unreachable
pub record Unreachable : Type 0 where
  pub holder : Bytes
  pub target : Bytes

pub data Respelled : Type 0 where
  spelled : Bytes → Respelled
  unreachable : Unreachable → Respelled

-- The hops of a route as it is written, from the node that it starts on.
spell_route : Bytes → List ReachEdge → Bytes
spell_route at [] = []
spell_route at (e ∷ es) = at ++ slash ∷ (e.conn ++ slash ∷ spell_route e.lands es)

abbrev respell_route : Bytes → Bytes → Bytes → Bytes → Option (List ReachEdge) → Respelled
respell_route hprefix holder target tail none =
    unreachable (record { holder = holder; target = target })
respell_route hprefix holder target tail (some es) =
    spelled (hprefix ++ (spell_route holder es ++ tail))

abbrev respell_target : Reach → ℕ → Bytes → Bytes → Option Bytes → Bytes → Respelled
respell_target r max_hops hprefix holder none tail =
    unreachable (record { holder = holder; target = [] })
respell_target r max_hops hprefix holder (some target) tail =
    respell_route hprefix holder target tail (route r holder target max_hops)

abbrev respell_holder : Reach → ℕ → Bytes → Option Bytes → Option Bytes → Bytes → Respelled
respell_holder r max_hops hprefix none target tail =
    unreachable (record { holder = []; target = [] })
respell_holder r max_hops hprefix (some holder) target tail =
    respell_target r max_hops hprefix holder target tail

unfoldable pub respell : Reach → Bytes → Bytes → Bytes → ℕ → Respelled
unfolding chain_of prefix_of tail_of walk route spell_route
respell r node_id grid ref max_hops =
    let held = chain_of grid node_id in
    let named = chain_of ref node_id in
    respell_holder r max_hops (prefix_of held) (walk r held.conns node_id)
      (walk r named.conns node_id) (tail_of named)

abbrev is_qualified : Option (Bytes × Bytes) → Bool
is_qualified none = false
is_qualified (some p) = true

unfoldable held_across : Bytes → Bytes → Bytes → Bool
unfolding owner_namespace_of uuid_of split_id chained_through bytes_eq
held_across grid ref node_id =
    let ns = owner_namespace_of grid node_id in
    if is_empty ns || bytes_eq ns (uuid_of grid)
    then false
    else (if not (is_qualified (split_id ref)) then false else not (chained_through ref ns))
