-- ===== src/Rpc/Transit/Peel.antt =====
-- api/rpc/transit.go: the inbound peel against the outbound prepend.
use gridwell.Base.{
  suc, ◌≡◌, refl, ap, sym, ◌∙◌, ◌⊎◌, inl, inr, Bool, true, false, not, ◌&&◌, ◌||◌, List, [], ◌∷◌,
  ◌++◌, map, Option, none, some, if◌then◌else◌, Bytes, is_empty, length, drop, Bool-cases, bytes_eq,
  cut_prefix, append_assoc,
}
use gridwell.Wire.{
  Tile, Placement, Request, create_tile, move_tile, delete_tile, copy_tile, set_tile, set_framing,
  find, set_selection, one_id,
}
use mathlib.Core.Option
use mathlib.Core.Bool.{false≢true}
use gridwell.Rpc.Id.{slash, qualify_id, uuid_of, split_id, split_id-eq_some, first_of_split}
use gridwell.Rpc.Segment.{
  owner_namespace_of, owner_of_split, chained_through, head_segment, is_tile_segment,
}
use gridwell.Rpc.Segment.Owner.{chained_through_iff}
use gridwell.Rpc.Transit.{
  each_field, is_ref, tile_id_fields, Hop, inbound_hop, peel_id, qualify_field, peel_tile,
  transit_qualify_tile, qualify_own_ids, peel_claim, peel_request,
}

drop_segment : (seg rest : Bytes) → drop (suc (length seg)) (qualify_id seg rest) ≡ rest
unfolding qualify_id
drop_segment [] rest = refl
drop_segment (c ∷ seg) rest = drop_segment seg rest

-- An id that the hop qualified comes back as it was, when it is served through the hop's chain.
pub peel_id-qualify :
    (h : Hop) (id : Bytes)
    → is_empty h.seg ≡ false
    → chained_through (qualify_id h.seg id) h.via ≡ true
    → peel_id h (qualify_id h.seg id) ≡ id
unfolding peel_id
peel_id-qualify h id filled chained = rw (filled, chained) (drop_segment h.seg id)

-- The namespace that an id is routed to is its first segment, or begins with it and a slash.
owner_of_split-first :
    (first rest node_id : Bytes)
    → let ns = owner_of_split (some (first, rest)) node_id in
      (ns ≡ first) ⊎ ((second : Bytes) × (ns ≡ qualify_id first second))
unfolding qualify_id
owner_of_split-first first rest node_id =
    two_tests (not (bytes_eq first node_id) || is_empty node_id)
      (is_empty (head_segment rest) || is_tile_segment (head_segment rest)) first
      (head_segment rest)
  where
    two_tests :
        (b c : Bool) (f s : Bytes)
        → let ns = if b then f else (if c then f else f ++ slash ∷ s) in
          (ns ≡ f) ⊎ ((second : Bytes) × (ns ≡ f ++ slash ∷ second))
    two_tests true c f s = inl refl
    two_tests false true f s = inl refl
    two_tests false false f s = inr (s, refl)

-- So every id chained through it is a qualification by that first segment.
chained-first :
    (id ns first : Bytes)
    → (ns ≡ first) ⊎ ((second : Bytes) × (ns ≡ qualify_id first second))
    → chained_through id ns ≡ true
    → (rest : Bytes) × (id ≡ qualify_id first rest)
unfolding qualify_id
chained-first id ns first (inl e) c =
    let (filled, (rest, k)) = (chained_through_iff id ns).0 c in
    (rest, k ∙ ap (λ (n : Bytes). n ++ slash ∷ rest) e)
chained-first id ns first (inr (second, e)) c =
    let (filled, (rest, k)) = (chained_through_iff id ns).0 c in
    (
      second ++ slash ∷ rest,
      k
          ∙ ap (λ (n : Bytes). n ++ slash ∷ rest) e
          ∙ append_assoc first (slash ∷ second) (slash ∷ rest),
    )

peel_id_of_parts :
    (h : Hop) (id first rest : Bytes)
    → h.seg ≡ first
    → is_empty first ≡ false
    → chained_through id h.via ≡ true
    → id ≡ qualify_id first rest
    → peel_id h id ≡ rest
unfolding peel_id
peel_id_of_parts h id first rest e filled c k =
    rw (e, filled, c) (ap (drop (suc (length first))) k ∙ drop_segment first rest)

-- A peel at the hop of a routed id removes exactly the hop's segment from every id that is chained
-- through the routed id's namespace.
pub peel_id-inbound_hop :
    (routed node_id id : Bytes) (transit : Bool) {first rest : Bytes}
    → split_id routed ≡ some (first, rest)
    → chained_through id (inbound_hop routed node_id transit).via ≡ true
    → id ≡ qualify_id first (peel_id (inbound_hop routed node_id transit) id)
unfolding inbound_hop
peel_id-inbound_hop routed node_id id transit {first} {rest} e c =
    let (more, k) = chained-first id (owner_namespace_of routed node_id) first via c in
    k
    ∙ ap (qualify_id first) (
        sym (
          peel_id_of_parts (inbound_hop routed node_id transit) id first more
            (unfold uuid_of in ap first_of_split e) (split_id-eq_some routed e).1.filled c k))
  where
    via :
        (owner_namespace_of routed node_id ≡ first)
        ⊎ ((second : Bytes) × (owner_namespace_of routed node_id ≡ qualify_id first second))
    via = unfold owner_namespace_of in rw e (owner_of_split-first first rest node_id)

-- A hop to a namespace that is served through its own segment alone.
pub record IsDirect (h : Hop) : Type 0 where
  pub filled : is_empty h.seg ≡ false
  pub direct : h.via ≡ h.seg

chained_direct :
    (h : Hop) (id : Bytes) → IsDirect h → chained_through (qualify_id h.seg id) h.via ≡ true
chained_direct h id d =
    rw d.direct ((chained_through_iff (qualify_id h.seg id) h.seg).1 (d.filled, (id, refl)))

peel_direct : (h : Hop) (id : Bytes) → IsDirect h → peel_id h (qualify_id h.seg id) ≡ id
peel_direct h id d = peel_id-qualify h id d.filled (chained_direct h id d)

peel_id-empty : (h : Hop) → peel_id h [] ≡ []
unfolding peel_id chained_through cut_prefix
peel_id-empty h = elim (Bool-cases (not (is_empty h.seg) && chained_through [] h.via)) [
  | inl e ↦ rw e
  | inr e ↦ rw e
]

peel-qualify_field :
    (h : Hop) (optional : Bool) (id : Bytes)
    → IsDirect h
    → peel_id h (qualify_field h.seg optional id) ≡ id
unfolding qualify_field
peel-qualify_field h true [] d = peel_id-empty h
peel-qualify_field h false [] d = peel_direct h [] d
peel-qualify_field h optional (c ∷ id) d = peel_direct h (c ∷ id) d

-- The peel of a tile by whether the hop is a transit hop.
abbrev peel_by : Hop → Bool → Tile → Tile
peel_by h b t = each_field (λ f. not (is_ref f) || b) (λ f. peel_id h) tile_id_fields t

peeling : (h : Hop) (t : Tile) {b : Bool} → h.transit ≡ b → peel_tile h t ≡ peel_by h b t
unfolding peel_tile
peeling h t e = ap (λ (b : Bool). peel_by h b t) e

-- Behind a direct transit hop every tile comes back whole from its outbound form, refs included.
pub peel_tile-transit_qualify :
    (h : Hop) (t : Tile)
    → IsDirect h
    → h.transit ≡ true
    → peel_tile h (transit_qualify_tile h.seg t) ≡ t
unfolding peel_tile transit_qualify_tile
peel_tile-transit_qualify h t d e = peeling h (transit_qualify_tile h.seg t) e ∙ (λ i. record t {
  id = peel-qualify_field h false t.id d i;
  grid_id = peel-qualify_field h false t.grid_id d i;
  child_grid_id = peel-qualify_field h true t.child_grid_id d i;
  link_target_id = peel-qualify_field h true t.link_target_id d i;
  shell_tmux = peel-qualify_field h true t.shell_tmux d i;
  presented_by = peel-qualify_field h true t.presented_by d i;
})

-- At a leaf the refs cross as they are both ways, and the tile comes back whole.
peel_tile-qualify_own_ids :
    (h : Hop) (t : Tile)
    → IsDirect h
    → h.transit ≡ false
    → peel_tile h (qualify_own_ids h.seg t) ≡ t
unfolding peel_tile qualify_own_ids
peel_tile-qualify_own_ids h t d e = peeling h (qualify_own_ids h.seg t) e ∙ (λ i. record t {
  id = peel-qualify_field h false t.id d i;
  grid_id = peel-qualify_field h false t.grid_id d i;
  shell_tmux = peel-qualify_field h true t.shell_tmux d i;
})

-- The request that a node in front of the hop is sent, for one that the far side reads: every id
-- that it carries is qualified.
pub qualify_request : Hop → Request → Request
qualify_request h (create_tile grid_id tile others) =
    create_tile (qualify_id h.seg grid_id) (Option.map (transit_qualify_tile h.seg) tile) others
qualify_request h (move_tile tile_id grid_id x y w h' claim) =
    move_tile (qualify_id h.seg tile_id) (qualify_id h.seg grid_id) x y w h'
      (Option.map (λ (c : Placement). record c { grid_id = qualify_id h.seg c.grid_id }) claim)
qualify_request h (delete_tile tile_id claim_version claim) =
    delete_tile (qualify_id h.seg tile_id) claim_version
      (Option.map (λ (c : Placement). record c { grid_id = qualify_id h.seg c.grid_id }) claim)
qualify_request h (copy_tile tile_id dest_grid_id x y) =
    copy_tile (qualify_id h.seg tile_id) (qualify_id h.seg dest_grid_id) x y
qualify_request h (set_tile tile_id version tile others) =
    set_tile (qualify_id h.seg tile_id) version (Option.map (transit_qualify_tile h.seg) tile)
      others
qualify_request h (set_framing tile_id root_grid_id cx cy zoom) =
    set_framing (qualify_id h.seg tile_id) (qualify_id h.seg root_grid_id) cx cy zoom
qualify_request h (find query scope grid_id others) = find query scope grid_id others
qualify_request h (set_selection grid_id add remove clear recurse all_grids) =
    set_selection (qualify_id h.seg grid_id) (map (qualify_id h.seg) add)
      (map (qualify_id h.seg) remove) clear recurse all_grids
qualify_request h (one_id id others) = one_id (qualify_id h.seg id) others

abbrev is_find : Request → Bool
is_find (find query scope grid_id others) = true
is_find _ = false

map-peel_direct :
    (h : Hop) (ids : List Bytes) → IsDirect h → map (peel_id h) (map (qualify_id h.seg) ids) ≡ ids
map-peel_direct h [] d = refl
map-peel_direct h (id ∷ ids) d = λ i. peel_direct h id d i ∷ map-peel_direct h ids d i

peel_claim_direct :
    (h : Hop) (claim : Option Placement)
    → IsDirect h
    → Option.map
        (peel_claim h)
        (Option.map (λ (c : Placement). record c { grid_id = qualify_id h.seg c.grid_id }) claim)
      ≡ claim
peel_claim_direct h none d = refl
peel_claim_direct h (some c) d =
    ap {B = Option Placement} some (λ i. record c { grid_id = peel_direct h c.grid_id d i })

peel_tile?_direct :
    (h : Hop) (tile : Option Tile)
    → IsDirect h
    → h.transit ≡ true
    → Option.map (peel_tile h) (Option.map (transit_qualify_tile h.seg) tile) ≡ tile
peel_tile?_direct h none d e = refl
peel_tile?_direct h (some t) d e = ap {B = Option Tile} some (peel_tile-transit_qualify h t d e)

-- The requests that carry one id, which the handler of their route puts in itself.
abbrev carries_one : Request → Bool
carries_one (one_id id others) = true
carries_one _ = false

-- Behind a direct transit hop a request with several ids, all of them qualified with the hop's segment,
-- comes back as the far side reads it, with each id peeled once; a request that carries one id comes back
-- unchanged, with its id still qualified. A find is left out.
pub peel_request-qualify :
    (h : Hop) (r : Request)
    → IsDirect h
    → h.transit ≡ true
    → is_find r ≡ false
    → peel_request h (qualify_request h r) ≡ (if carries_one r then qualify_request h r else r)
unfolding peel_request qualify_request
peel_request-qualify h (create_tile grid_id tile others) d e n =
    λ i. create_tile (peel_direct h grid_id d i) (peel_tile?_direct h tile d e i) others
peel_request-qualify h (move_tile tile_id grid_id x y w h' claim) d e n = λ i.
    move_tile (peel_direct h tile_id d i) (peel_direct h grid_id d i) x y w h'
      (peel_claim_direct h claim d i)
peel_request-qualify h (delete_tile tile_id claim_version claim) d e n =
    λ i. delete_tile (peel_direct h tile_id d i) claim_version (peel_claim_direct h claim d i)
peel_request-qualify h (copy_tile tile_id dest_grid_id x y) d e n =
    λ i. copy_tile (peel_direct h tile_id d i) (peel_direct h dest_grid_id d i) x y
peel_request-qualify h (set_tile tile_id version tile others) d e n =
    λ i. set_tile (peel_direct h tile_id d i) version (peel_tile?_direct h tile d e i) others
peel_request-qualify h (set_framing tile_id root_grid_id cx cy zoom) d e n =
    λ i. set_framing (peel_direct h tile_id d i) (peel_direct h root_grid_id d i) cx cy zoom
peel_request-qualify h (find query scope grid_id others) d e n = absurd (false≢true (sym n))
peel_request-qualify h (set_selection grid_id add remove clear recurse all_grids) d e n = λ i.
    set_selection (peel_direct h grid_id d i) (map-peel_direct h add d i)
      (map-peel_direct h remove d i) clear recurse all_grids
peel_request-qualify h (one_id id others) d e n = refl
