-- ===== src/Rpc/Reach/Search.antt =====
-- api/rpc/reach.go: the search of Route, its rounds and its answers.
use gridwell.Base.{
  ℕ, zero, suc, ◌+◌, ◌≤◌, ◌<◌, ◌≡◌, refl, ap, sym, subst, inl, inr, true, false, List, [], ◌∷◌,
  ◌++◌, Option, none, some, if◌then◌else◌, ◌==◌, Bytes, bytes_eq, bytes_eq→eq, bytes_eq_refl,
  length, length-append, All, All-append, Bool-cases, arith,
}
use gridwell.Rpc.Reach.{
  Reach, ReachEdge, node_at, edges_of, edge_count, Visit, Frontier, has_seen, visit_edge,
  visit_edges, route_from, route, answer_of,
}

-- How many of the edges land on a node that has not been seen.
unseen : List Bytes → List ReachEdge → ℕ
unseen seen [] = 0
unseen seen (e ∷ es) = let rest = unseen seen es in if has_seen e.lands seen then rest else suc rest

unseen_all : List Bytes → Reach → ℕ
unseen_all seen [] = 0
unseen_all seen ((id, n) ∷ r) = unseen seen n.edges + unseen_all seen r

has_seen_cons :
    (n s : Bytes) (seen : List Bytes) → has_seen n seen ≡ true → has_seen n (s ∷ seen) ≡ true
unfolding has_seen
has_seen_cons n s seen h = ground arith

unseen-cons_le :
    (s : Bytes) (seen : List Bytes) (es : List ReachEdge) → unseen (s ∷ seen) es ≤ unseen seen es
unfolding unseen
unseen-cons_le s seen [] = omega arith
unseen-cons_le s seen (e ∷ es) =
    ground (arith, unseen-cons_le s seen es, has_seen_cons e.lands s seen)

unseen_all-cons_le :
    (s : Bytes) (seen : List Bytes) (r : Reach) → unseen_all (s ∷ seen) r ≤ unseen_all seen r
unfolding unseen_all
unseen_all-cons_le s seen [] = omega arith
unseen_all-cons_le s seen ((id, n) ∷ r) =
    omega (arith, unseen-cons_le s seen n.edges, unseen_all-cons_le s seen r)

-- An edge of the graph.
pub data EdgeIn (e : ReachEdge) : List ReachEdge → Type 0 where
  edge_head : {es : List ReachEdge} → EdgeIn e (e ∷ es)
  edge_tail : {d : ReachEdge} {es : List ReachEdge} → EdgeIn e es → EdgeIn e (d ∷ es)

has_seen_self : (n : Bytes) (seen : List Bytes) → has_seen n (n ∷ seen) ≡ true
unfolding has_seen
has_seen_self n seen = rw (bytes_eq_refl n)

unseen-EdgeIn :
    {e : ReachEdge} {es : List ReachEdge} (seen : List Bytes)
    → EdgeIn e es
    → has_seen e.lands seen ≡ false
    → unseen (e.lands ∷ seen) es < unseen seen es
unfolding unseen
unseen-EdgeIn {e} seen (edge_head {es}) h =
    ground (arith, has_seen_self e.lands seen, unseen-cons_le e.lands seen es)
unseen-EdgeIn {e} seen (edge_tail {d} {es} i) h =
    ground (arith, unseen-EdgeIn seen i h, has_seen_cons d.lands e.lands seen)

-- Its node is where node_at finds it.
unseen_all-EdgeIn :
    (r : Reach) (at : Bytes) (e : ReachEdge) (seen : List Bytes)
    → EdgeIn e (edges_of (node_at r at))
    → has_seen e.lands seen ≡ false
    → unseen_all (e.lands ∷ seen) r < unseen_all seen r
unfolding node_at unseen_all
unseen_all-EdgeIn [] at e seen i h = elim i [ ]
unseen_all-EdgeIn ((id, n) ∷ r) at e seen i h = elim (Bool-cases (bytes_eq id at)) [
  | inl q ↦
      omega (arith, unseen-EdgeIn seen (rw (q, node_at) at i) h, unseen_all-cons_le e.lands seen r)
  | inr q ↦ omega (
    arith,
    unseen-cons_le e.lands seen n.edges,
    unseen_all-EdgeIn r at e seen (rw (q, node_at) at i) h,
  )
]

-- What is left to do: the queue, and the edges that may yet be queued.
abbrev work : Reach → Frontier → ℕ
work r f = length f.queue + unseen_all f.seen r

-- All of a list of edges are edges of the graph from one node.
abbrev EdgesFrom : Reach → Bytes → List ReachEdge → Type 0
EdgesFrom r at es = All (λ e. EdgeIn e (edges_of (node_at r at))) es

visit_edge-work :
    (r : Reach) (at : Bytes) (path : List ReachEdge) (e : ReachEdge) (f : Frontier)
    → EdgeIn e (edges_of (node_at r at))
    → work r (visit_edge path e f) ≤ work r f
unfolding visit_edge
visit_edge-work r at path e f h = elim (Bool-cases (has_seen e.lands f.seen)) [
  | inl s ↦ rw s (omega arith)
  | inr s ↦ rw s (
      omega (
        arith,
        unseen_all-EdgeIn r at e f.seen h s,
        length-append f.queue (record { node = e.lands; path = path ++ e ∷ [] } ∷ []),
      ))
]

visit_edges-work :
    (r : Reach) (at : Bytes) (path es : List ReachEdge) (f : Frontier)
    → EdgesFrom r at es
    → work r (visit_edges path es f) ≤ work r f
unfolding visit_edges
visit_edges-work r at path [] f h = omega arith
visit_edges-work r at path (e ∷ es) f h = omega (
  arith,
  visit_edges-work r at path es (visit_edge path e f) h.1,
  visit_edge-work r at path e f h.0,
)

All-EdgeIn :
    {P : ReachEdge → Type 0} (es : List ReachEdge)
    → ((e : ReachEdge) → EdgeIn e es → P e)
    → All P es
All-EdgeIn [] h = tt
All-EdgeIn (e ∷ es) h = (h e edge_head, All-EdgeIn es (λ d i. h d (edge_tail i)))

all_EdgesFrom : (r : Reach) (at : Bytes) → EdgesFrom r at (edges_of (node_at r at))
all_EdgesFrom r at = All-EdgeIn (edges_of (node_at r at)) (λ e i. i)

route_from-total :
    (fuel : ℕ) (r : Reach) (to : Bytes) (max_hops : ℕ) (seen : List Bytes) (queue : List Visit)
    → length queue + unseen_all seen r < fuel
    → (a : Option (List ReachEdge)) × (route_from fuel r to max_hops seen queue ≡ some a)
unfolding route_from
route_from-total zero r to max_hops seen queue h = absurd (omega arith)
route_from-total (suc fuel) r to max_hops seen [] h = (none, refl)
route_from-total (suc fuel) r to max_hops seen (v ∷ queue) h =
    elim (Bool-cases (bytes_eq v.node to)) [
      | inl t ↦ (some v.path, rw t)
      | inr t ↦ elim (Bool-cases (length v.path == max_hops)) [
        | inl d ↦ rw (t, d) (route_from-total fuel r to max_hops seen queue (omega arith))
        | inr d ↦
            let f : Frontier = record { seen = seen; queue = queue } in
            let f' = visit_edges v.path (edges_of (node_at r v.node)) f in
            rw (t, d)
              (route_from-total fuel r to max_hops f'.seen f'.queue (
                omega (
                  arith,
                  visit_edges-work r v.node v.path (edges_of (node_at r v.node)) f
                      (all_EdgesFrom r v.node),
                )))
      ]
    ]

unseen-le-length : (seen : List Bytes) (es : List ReachEdge) → unseen seen es ≤ length es
unfolding unseen
unseen-le-length seen [] = omega arith
unseen-le-length seen (e ∷ es) = ground (arith, unseen-le-length seen es)

unseen_all-le : (seen : List Bytes) (r : Reach) → unseen_all seen r ≤ edge_count r
unfolding unseen_all
unseen_all-le seen [] = omega arith
unseen_all-le seen ((id, n) ∷ r) =
    omega (arith, unseen-le-length seen n.edges, unseen_all-le seen r)

-- A chain of declared connections from a node, by its last connection.
pub data IsRoute (r : Reach) (start : Bytes) : List ReachEdge → Bytes → Type 0 where
  at_start : IsRoute r start [] start
  along :
      {path : List ReachEdge} {at : Bytes} {e : ReachEdge}
      → IsRoute r start path at
      → EdgeIn e (edges_of (node_at r at))
      → IsRoute r start (path ++ e ∷ []) e.lands

-- A queued visit has come along a route that is not too long.
abbrev Arrived : Reach → Bytes → ℕ → Visit → Type 0
Arrived r start max_hops v = IsRoute r start v.path v.node × (length v.path ≤ max_hops)

visit_edge_old :
    (path : List ReachEdge) (e : ReachEdge) (f : Frontier)
    → has_seen e.lands f.seen ≡ true
    → visit_edge path e f ≡ f
unfolding visit_edge
visit_edge_old path e f k = simp k

visit_edge_new :
    (path : List ReachEdge) (e : ReachEdge) (f : Frontier)
    → has_seen e.lands f.seen ≡ false
    → visit_edge path e f ≡ record {
      seen = e.lands ∷ f.seen;
      queue = f.queue ++ record { node = e.lands; path = path ++ e ∷ [] } ∷ [];
    }
unfolding visit_edge
visit_edge_new path e f k = simp k

visit_edge-Arrived :
    (r : Reach) (start at : Bytes) (max_hops : ℕ) (path : List ReachEdge) (e : ReachEdge)
    (f : Frontier)
    → IsRoute r start path at
    → length path < max_hops
    → EdgeIn e (edges_of (node_at r at))
    → All (Arrived r start max_hops) f.queue
    → All (Arrived r start max_hops) (visit_edge path e f).queue
visit_edge-Arrived r start at max_hops path e f p lt i q =
    elim (Bool-cases (has_seen e.lands f.seen)) [
      | inl k ↦
          subst (λ (g : Frontier). All (Arrived r start max_hops) g.queue)
            (sym (visit_edge_old path e f k)) q
      | inr k ↦
          subst (λ (g : Frontier). All (Arrived r start max_hops) g.queue)
            (sym (visit_edge_new path e f k))
            (All-append (Arrived r start max_hops) f.queue
              (record { node = e.lands; path = path ++ e ∷ [] } ∷ []) q
              ((along p i, omega (arith, length-append path (e ∷ []))), tt))
    ]

visit_edges-Arrived :
    (r : Reach) (start at : Bytes) (max_hops : ℕ) (path es : List ReachEdge) (f : Frontier)
    → IsRoute r start path at
    → length path < max_hops
    → EdgesFrom r at es
    → All (Arrived r start max_hops) f.queue
    → All (Arrived r start max_hops) (visit_edges path es f).queue
unfolding visit_edges
visit_edges-Arrived r start at max_hops path [] f p lt h q = q
visit_edges-Arrived r start at max_hops path (e ∷ es) f p lt h q =
    visit_edges-Arrived r start at max_hops path es (visit_edge path e f) p lt h.1
      (visit_edge-Arrived r start at max_hops path e f p lt h.0 q)

-- The answer of a finished search.
abbrev Answered : Reach → Bytes → Bytes → ℕ → Option (List ReachEdge) → Type 0
Answered r start to max_hops none = Unit {0}
Answered r start to max_hops (some path) = IsRoute r start path to × (length path ≤ max_hops)

route_from-Answered :
    (fuel : ℕ) (r : Reach) (start to : Bytes) (max_hops : ℕ) (seen : List Bytes)
    (queue : List Visit)
    → All (Arrived r start max_hops) queue
    → Answered r start to max_hops (answer_of (route_from fuel r to max_hops seen queue))
unfolding route_from
route_from-Answered zero r start to max_hops seen queue h = tt
route_from-Answered (suc fuel) r start to max_hops seen [] h = tt
route_from-Answered (suc fuel) r start to max_hops seen (v ∷ queue) h =
    elim (Bool-cases (bytes_eq v.node to)) [
      | inl t ↦ rw t (subst (IsRoute r start v.path) (bytes_eq→eq v.node to t) h.0.0, h.0.1)
      | inr t ↦ elim (Bool-cases (length v.path == max_hops)) [
        | inl d ↦ rw (t, d) (route_from-Answered fuel r start to max_hops seen queue h.1)
        | inr d ↦
            let f : Frontier = record { seen = seen; queue = queue } in
            let f' = visit_edges v.path (edges_of (node_at r v.node)) f in
            rw (t, d)
              (route_from-Answered fuel r start to max_hops f'.seen f'.queue (
                visit_edges-Arrived r start v.node max_hops v.path (edges_of (node_at r v.node)) f
                  h.0.0 (shorter h.0.1 d) (all_EdgesFrom r v.node) h.1))
      ]
    ]
  where
    shorter : {a b : ℕ} → a ≤ b → (a == b) ≡ false → a < b
    shorter le ne = ground arith

start_fits : (start : Bytes) (r : Reach) → 1 + unseen_all (start ∷ []) r < suc (suc (edge_count r))
start_fits start r = omega (arith, unseen_all-le (start ∷ []) r)

-- The search ends by finding the target or by running out of nodes, never by its bound on rounds.
pub route_ends :
    (r : Reach) (start to : Bytes) (max_hops : ℕ)
    → (a : Option (List ReachEdge)) × (route_from
          (suc (suc (edge_count r)))
          r
          to
          max_hops
          (start ∷ [])
          (record { node = start; path = [] } ∷ [])
        ≡ some a)
      × (route r start to max_hops ≡ a)
unfolding route
route_ends r start to max_hops =
    let (a, e) =
      route_from-total (suc (suc (edge_count r))) r to max_hops (start ∷ [])
        (record { node = start; path = [] } ∷ []) (start_fits start r) in
    (a, e, ap answer_of e)

-- A route that is found is a chain of declared connections from the start to the target, of at most
-- the given number of hops.
pub route-IsRoute :
    (r : Reach) (start to : Bytes) (max_hops : ℕ) {path : List ReachEdge}
    → route r start to max_hops ≡ some path
    → IsRoute r start path to × (length path ≤ max_hops)
unfolding route
route-IsRoute r start to max_hops e = subst (Answered r start to max_hops) e (
    route_from-Answered (suc (suc (edge_count r))) r start to max_hops (start ∷ [])
      (record { node = start; path = [] } ∷ []) ((at_start, omega arith), tt))
