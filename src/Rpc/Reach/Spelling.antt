-- ===== src/Rpc/Reach/Spelling.antt =====
-- api/rpc/reach.go: ChainOf and the spelling that it takes apart.
use gridwell.Base.{
  ◌≡◌, refl, ap, sym, ◌∙◌, inl, inr, Bool, true, false, not, ◌&&◌, ◌||◌, List, [], ◌∷◌, ◌++◌, Bytes,
  is_empty, bytes_eq, bytes_eq→eq, split, split-ne_nil, join, join-split, append_assoc, Bool-cases,
  arith, &&_left, &&_right,
}
use mathlib.Core.Bool.{false≢true}
use gridwell.Rpc.Id.{slash}
use gridwell.Rpc.Segment.{SegmentShape, shape_namespace, shape_of}
use gridwell.Rpc.Reach.{Chain, push_hop, is_namespace, chain_loop, chain_of, prefix_of, tail_of}

-- The segments of a chain, hop by hop: each node segment is followed by a connection.
pub data Hops : List Bytes → List Bytes → Type 0 where
  no_hops : Hops [] []
  hop :
      {node conn : Bytes} {segs conns : List Bytes}
      → shape_of conn ≡ shape_namespace
      → Hops segs conns
      → Hops (node ∷ conn ∷ segs) (conn ∷ conns)

-- What a chain says of the segments that it was read from.
pub record Reads (at_start : Bool) (node_id : Bytes) (segs : List Bytes) (c : Chain) : Type 0 where
  pub whole : c.hops ++ c.left ≡ segs
  pub rest : is_empty segs ≡ false → is_empty c.left ≡ false
  pub hops : Hops c.hops c.conns
  pub own :
      at_start ≡ true → is_empty c.hops ≡ false → (more : List Bytes) × (c.hops ≡ node_id ∷ more)

namespace_of_test : (s : SegmentShape) → is_namespace s ≡ true → s ≡ shape_namespace
namespace_of_test s h = ground arith

stopped :
    (at_start : Bool) (node_id : Bytes) (segs : List Bytes)
    → Reads at_start node_id segs (record { conns = []; hops = []; left = segs })
stopped at_start node_id segs = record {
  whole = refl;
  rest = λ h. h;
  hops = no_hops;
  own = λ s e. absurd (false≢true (sym e));
}

own_node :
    (at_start : Bool) (node_id a : Bytes)
    → not (at_start && (is_empty node_id || not (bytes_eq a node_id))) ≡ true
    → at_start ≡ true
    → a ≡ node_id
own_node at_start node_id a h s = bytes_eq→eq a node_id (ground arith)

Reads-push_hop :
    (at_start : Bool) (node_id a b c : Bytes) (segs : List Bytes) (k : Chain)
    → (is_namespace (shape_of b)
        && not (at_start && (is_empty node_id || not (bytes_eq a node_id))))
      ≡ true
    → Reads false node_id (c ∷ segs) k
    → Reads at_start node_id (a ∷ b ∷ c ∷ segs) (push_hop a b k)
Reads-push_hop at_start node_id a b c segs k h r = record {
  whole = λ i. a ∷ b ∷ r.whole i;
  rest = λ e. r.rest refl;
  hops = hop (namespace_of_test (shape_of b) (&&_left _ _ h)) r.hops;
  own = λ s e. (b ∷ k.hops, λ i. own_node at_start node_id a (&&_right _ _ h) s i ∷ b ∷ k.hops);
}

chain_loop-Reads :
    (at_start : Bool) (node_id : Bytes) (segs : List Bytes)
    → Reads at_start node_id segs (chain_loop at_start node_id segs)
unfolding chain_loop
chain_loop-Reads at_start node_id [] = stopped at_start node_id []
chain_loop-Reads at_start node_id (a ∷ []) = stopped at_start node_id (a ∷ [])
chain_loop-Reads at_start node_id (a ∷ b ∷ []) = stopped at_start node_id (a ∷ b ∷ [])
chain_loop-Reads at_start node_id (a ∷ b ∷ c ∷ segs) =
    elim (Bool-cases (
      is_namespace (shape_of b)
      && not (at_start && (is_empty node_id || not (bytes_eq a node_id))))) [
        | inl e ↦ rw e (
            Reads-push_hop at_start node_id a b c segs (chain_loop false node_id (c ∷ segs)) e
              (chain_loop-Reads false node_id (c ∷ segs)))
        | inr e ↦ rw e (stopped at_start node_id (a ∷ b ∷ c ∷ segs))
      ]

filled-cons :
    (xs : List Bytes) → is_empty xs ≡ false → (h : Bytes) × (t : List Bytes) × (xs ≡ h ∷ t)
filled-cons [] e = absurd (false≢true (sym e))
filled-cons (h ∷ t) e = (h, t, refl)

join_cons :
    (h : Bytes) (ss : List Bytes)
    → is_empty ss ≡ false
    → join slash (h ∷ ss) ≡ h ++ slash ∷ join slash ss
unfolding join
join_cons h [] e = absurd (false≢true (sym e))
join_cons h (s ∷ ss) e = refl

append-filled : (xs ys : List Bytes) → is_empty ys ≡ false → is_empty (xs ++ ys) ≡ false
append-filled [] ys e = e
append-filled (x ∷ xs) ys e = refl

join-append :
    (h : Bytes) (hs ls : List Bytes)
    → is_empty ls ≡ false
    → join slash (h ∷ hs ++ ls) ≡ join slash (h ∷ hs) ++ slash ∷ join slash ls
join-append h [] ls e =
    join_cons h ls e ∙ ap (λ (s : Bytes). s ++ slash ∷ join slash ls) (sym (one h))
  where
    one : (s : Bytes) → join slash (s ∷ []) ≡ s
    one s = unfold join in refl
join-append h (g ∷ hs) ls e =
    join_cons h (g ∷ hs ++ ls) refl
    ∙ ap (λ (s : Bytes). h ++ slash ∷ s) (join-append g hs ls e)
    ∙ sym (append_assoc h (slash ∷ join slash (g ∷ hs)) (slash ∷ join slash ls))
    ∙ ap (λ (s : Bytes). s ++ slash ∷ join slash ls) (sym (join_cons h (g ∷ hs) refl))

prefix-tail :
    (hops left : List Bytes)
    → is_empty left ≡ false
    → (conns : List Bytes)
    → let c : Chain = record { conns = conns; hops = hops; left = left } in
      prefix_of c ++ tail_of c ≡ join slash (hops ++ left)
unfolding prefix_of tail_of
prefix-tail [] left e conns = refl
prefix-tail (h ∷ hs) left e conns =
    append_assoc (join slash (h ∷ hs)) (slash ∷ []) (join slash left)
    ∙ sym (join-append h hs left e)

-- ChainOf loses nothing of an id: the prefix and the tail make it up. The prefix is hops, a node
-- segment and a connection of the namespace shape each time, with the connections in order, and one
-- that is not empty begins at the node whose frame the id is in.
pub chain_of-whole :
    (id node_id : Bytes)
    → let c = chain_of id node_id in
      (prefix_of c ++ tail_of c ≡ id)
      × Hops c.hops c.conns
      × (is_empty c.hops ≡ false → (more : List Bytes) × (c.hops ≡ node_id ∷ more))
unfolding chain_of
chain_of-whole id node_id =
    let c = chain_loop true node_id (split slash id) in
    let reads = chain_loop-Reads true node_id (split slash id) in
    let (h, t, e) = split-ne_nil slash id in
    (
      prefix-tail c.hops c.left (reads.rest (ap is_empty e)) c.conns
          ∙ ap (join slash) reads.whole
          ∙ join-split slash id,
      reads.hops,
      reads.own refl,
    )
