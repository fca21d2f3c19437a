-- ===== src/Server/Routing/Table.antt =====
-- internal/server/router.go and server.go: route's answers by the segments of an id.
use gridwell.Base.{
  ℕ, ◌≡◌, refl, ap, sym, ◌∙◌, ◌≢◌, ◌⊎◌, inl, inr, Bool, true, false, not, ◌&&◌, ◌||◌, [], ◌∷◌, ◌++◌,
  Option, none, some, Bytes, bytes_eq, bytes_eq_refl, bytes_eq→eq, is_empty, Bool-cases,
  Option-cases, cut_byte-eq_some, cut_byte-eq_none, subst, has_byte, cut_byte, cut_byte-append,
  cut_byte-of_lacks, arith,
}
use mathlib.Core.Bool.{false≢true}
use gridwell.Rpc.Id.{slash, split_id, qualify_id, uuid_of, first_of_split, split-qualify, IsSegment}
use gridwell.Rpc.Segment.{owner_namespace_of, head_segment, is_tile_segment}
use gridwell.Server.Registry.{client_of}
use gridwell.Server.Routing.{
  Node, Resolved, Refusal, unqualified, dead_link, or_dead, resolved_at, resolve, route_to,
}
use gridwell.Server.Routing.Answers.{crosses, next_hop, resolve_split-next_hop}

-- rest is the run second, alone or before a slash.
abbrev Starts : Bytes → Bytes → Type 0
Starts second rest = (rest ≡ second) ⊎ ((more : Bytes) × (rest ≡ qualify_id second more))

Starts-head_segment :
    (second rest : Bytes)
    → has_byte slash second ≡ false
    → Starts second rest
    → head_segment rest ≡ second
unfolding head_segment qualify_id
Starts-head_segment second rest whole (inl e) = rw (e, cut_byte-of_lacks slash second whole) refl
Starts-head_segment second rest whole (inr (more, e)) =
    rw (e, cut_byte-append slash second more whole) refl

-- A node of N is reached, or the link is dead.
abbrev reaches {ℓ} : {N : Type ℓ} → Bytes → Bytes → Bool → Option N → Refusal ⊎ Resolved N
reaches first rest far none = inl (dead_link first)
reaches first rest far (some ns) =
    inr (record { ns = ns; local = rest; uuid = first; transit = far })

bytes_eq_longer : (s t : Bytes) (c : ℕ) → bytes_eq (s ++ c ∷ t) s ≡ false
unfolding bytes_eq
bytes_eq_longer [] t c = refl
bytes_eq_longer (x ∷ s) t c = ground (arith, bytes_eq_longer s t c)

bytes_eq_other : (s t : Bytes) → s ≢ t → bytes_eq s t ≡ false
bytes_eq_other s t ne = elim (Bool-cases (bytes_eq s t)) [
  | inl e ↦ absurd (ne (bytes_eq→eq s t e))
  | inr e ↦ e
]

&&_false : (b : Bool) → (b && false) ≡ false
&&_false true = refl
&&_false false = refl

cut_byte-cases :
    (c : ℕ) (s : Bytes)
    → (has_byte c s ≡ false)
      ⊎ ((a b : Bytes) × (s ≡ a ++ c ∷ b) × (has_byte c a ≡ false) × (cut_byte c s ≡ some (a, b)))
cut_byte-cases c s = elim (Option-cases (cut_byte c s)) [
  | inl e ↦ inl (cut_byte-eq_none c s e)
  | inr ((a, b), e) ↦ let (eq, whole) = cut_byte-eq_some c s e in inr (a, b, eq, whole, e)
]

-- The head segment starts the rest.
head_segment-Starts :
    (rest : Bytes) → Starts (head_segment rest) rest × (has_byte slash (head_segment rest) ≡ false)
unfolding head_segment qualify_id
head_segment-Starts rest = elim (cut_byte-cases slash rest) [
  | inl e ↦ rw (cut_byte-of_lacks slash rest e) (inl refl, e)
  | inr (a, b, eq, whole, e) ↦ rw e (inr (b, eq), whole)
]

-- How a node routes an id, by the segments of the id.
pub data Routed {ℓ κ} {N : Type ℓ} {C : Type κ} (n : Node N C)
    : Bytes → Refusal ⊎ Resolved N → Type (ℓ ⊔ κ) where
  bare : (id : Bytes) → has_byte slash id ≡ false → Routed n id (inl (unqualified id))
  headless : (rest : Bytes) → Routed n (slash ∷ rest) (inl (unqualified (slash ∷ rest)))
  other_node :
      (first rest : Bytes)
      → IsSegment first
      → first ≢ n.node_id
      → Routed n (qualify_id first rest) (reaches first rest false (client_of n.registry first))
  own_tile :
      (second rest : Bytes)
      → IsSegment n.node_id
      → Starts second rest
      → has_byte slash second ≡ false
      → (second ≡ []) ⊎ (is_tile_segment second ≡ true)
      → Routed n
          (qualify_id n.node_id rest)
          (reaches n.node_id rest false (client_of n.registry n.node_id))
  own_connection :
      (second rest : Bytes)
      → IsSegment n.node_id
      → Starts second rest
      → IsSegment second
      → is_tile_segment second ≡ false
      → Routed n (qualify_id n.node_id rest) (reaches n.node_id rest true n.registry.transport)

module _ {ℓ κ} {N : Type ℓ} {C : Type κ} where
  route_to-hop :
      (n : Node N C) (first rest : Bytes) (far : Bool)
      → IsSegment first
      → crosses n (qualify_id first rest) first ≡ far
      → route_to n (qualify_id first rest) ≡ reaches first rest far (next_hop n first far)
  unfolding route_to resolve uuid_of
  route_to-hop n first rest far whole c =
      rw
        (
          split-qualify first rest whole,
          resolve_split-next_hop n (qualify_id first rest) first rest,
          c,
        )
        (reached (next_hop n first far))
    where
      reached :
          (hop : Option N)
          → or_dead (qualify_id first rest) (resolved_at first rest far hop)
            ≡ reaches first rest far hop
      reached none = ap (λ o. inl (dead_link (first_of_split o))) (split-qualify first rest whole)
      reached (some ns) = refl

  crosses-other :
      (n : Node N C) (first rest : Bytes)
      → IsSegment first
      → first ≢ n.node_id
      → crosses n (qualify_id first rest) first ≡ false
  unfolding owner_namespace_of
  crosses-other n first rest whole ne =
      rw (split-qualify first rest whole, bytes_eq_other first n.node_id ne, bytes_eq_refl first)
        (&&_false (not (is_empty n.node_id)))

  crosses-tile :
      (n : Node N C) (rest second : Bytes)
      → IsSegment n.node_id
      → head_segment rest ≡ second
      → (is_empty second || is_tile_segment second) ≡ true
      → crosses n (qualify_id n.node_id rest) n.node_id ≡ false
  unfolding owner_namespace_of
  crosses-tile n rest second whole h seg =
      rw
        (
          split-qualify n.node_id rest whole,
          bytes_eq_refl n.node_id,
          whole.filled,
          h,
          seg,
          bytes_eq_refl n.node_id,
        )
        refl

  crosses-connection :
      (n : Node N C) (rest second : Bytes)
      → IsSegment n.node_id
      → head_segment rest ≡ second
      → (is_empty second || is_tile_segment second) ≡ false
      → crosses n (qualify_id n.node_id rest) n.node_id ≡ true
  unfolding owner_namespace_of
  crosses-connection n rest second whole h seg =
      rw
        (
          split-qualify n.node_id rest whole,
          bytes_eq_refl n.node_id,
          whole.filled,
          h,
          seg,
          bytes_eq_longer n.node_id second slash,
        )
        refl

  own-Routed :
      (n : Node N C) (rest second : Bytes)
      → IsSegment n.node_id
      → Starts second rest
      → has_byte slash second ≡ false
      → head_segment rest ≡ second
      → Routed n (qualify_id n.node_id rest) (route_to n (qualify_id n.node_id rest))
  own-Routed n rest [] whole start single h =
      subst (Routed n (qualify_id n.node_id rest))
        (sym (route_to-hop n n.node_id rest false whole (crosses-tile n rest [] whole h refl)))
        (own_tile [] rest whole start single (inl refl))
  own-Routed n rest (c ∷ cs) whole start single h = elim (Bool-cases (is_tile_segment (c ∷ cs))) [
    | inl e ↦
        subst (Routed n (qualify_id n.node_id rest))
          (sym (route_to-hop n n.node_id rest false whole (crosses-tile n rest (c ∷ cs) whole h e)))
          (own_tile (c ∷ cs) rest whole start single (inr e))
    | inr e ↦
        subst (Routed n (qualify_id n.node_id rest))
          (sym (
            route_to-hop n n.node_id rest true whole
              (crosses-connection n rest (c ∷ cs) whole h e)))
          (own_connection (c ∷ cs) rest whole start (record { filled = refl; whole = single }) e)
  ]

  qualified-Routed :
      (n : Node N C) (first rest : Bytes)
      → IsSegment first
      → Routed n (qualify_id first rest) (route_to n (qualify_id first rest))
  qualified-Routed n first rest whole = elim (Bool-cases (bytes_eq first n.node_id)) [
    | inl e ↦
        let same = bytes_eq→eq first n.node_id e in
        let (start, single) = head_segment-Starts rest in
        subst (λ (f : Bytes). Routed n (qualify_id f rest) (route_to n (qualify_id f rest)))
          (sym same)
          (own-Routed n rest (head_segment rest) (subst IsSegment same whole) start single refl)
    | inr e ↦
        let ne : first ≢ n.node_id =
          λ q. false≢true (sym e ∙ ap (bytes_eq first) (sym q) ∙ bytes_eq_refl first) in
        subst (Routed n (qualify_id first rest))
          (sym (route_to-hop n first rest false whole (crosses-other n first rest whole ne)))
          (other_node first rest whole ne)
  ]

  cut-Routed :
      (n : Node N C) (a b : Bytes)
      → has_byte slash a ≡ false
      → Routed n (a ++ slash ∷ b) (route_to n (a ++ slash ∷ b))
  unfolding qualify_id
  cut-Routed n [] b whole = unfold route_to split_id cut_byte in headless b
  cut-Routed n (c ∷ cs) b whole =
      qualified-Routed n (c ∷ cs) b (record { filled = refl; whole = whole })

  bare-Routed :
      (n : Node N C) (id : Bytes) → has_byte slash id ≡ false → Routed n id (route_to n id)
  unfolding route_to split_id
  bare-Routed n id e = rw (cut_byte-of_lacks slash id e) (bare id e)

  -- Every id is routed by its segments. Without a slash, or with nothing before the first, it is refused
  -- as unqualified. What stands before the first slash is its namespace, and the rest is what is sent on.
  -- A namespace that is not the node's own id is a client of the node. Under the node's own id a rest that
  -- is empty, or begins with a slash or with a tile's segment, goes to the client of that id, and a rest
  -- that begins with a namespace's segment goes out through the transport, marked as transit. Where there
  -- is no such client or no transport the link is dead, and it is the first namespace that is named.
  pub route_to-Routed : (n : Node N C) (id : Bytes) → Routed n id (route_to n id)
  route_to-Routed n id = elim (cut_byte-cases slash id) [
    | inl e ↦ bare-Routed n id e
    | inr (a, b, eq, whole, e) ↦
        subst (λ (i : Bytes). Routed n i (route_to n i)) (sym eq) (cut-Routed n a b whole)
  ]
