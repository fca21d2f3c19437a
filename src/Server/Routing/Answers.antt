-- ===== src/Server/Routing/Answers.antt =====
-- internal/server/router.go and server.go: what route answers, and the ids that a client gives out.
use gridwell.Base.{
  ◌≡◌, refl, ap, sym, ◌∙◌, ◌⊎◌, inl, inr, Bool, true, false, not, ◌&&◌, ◌||◌, Option, none, some,
  is_some, if◌then◌else◌, Bytes, bytes_eq, bytes_eq_refl, bytes_eq→eq, is_empty, Bool-cases, subst,
}
use gridwell.Rpc.Id.{
  split_id, qualify_id, uuid_of, first_of_split, split_id-eq_some, split-qualify, IsSegment,
}
use gridwell.Rpc.Segment.{owner_namespace_of, head_segment, is_tile_segment}
use gridwell.Server.Registry.{client_of}
use gridwell.Server.Routing.{
  Node, Resolved, Refusal, unqualified, dead_link, resolved_at, or_dead, resolve_split, resolve,
  route_to,
}

&&_false : (b : Bool) → (b && false) ≡ false
&&_false true = refl
&&_false false = refl

||_true : (b : Bool) → (b || true) ≡ true
||_true true = refl
||_true false = refl

own_of : (s t : Bytes) → (not (bytes_eq s t) || is_empty t) ≡ false → s ≡ t
own_of s t h = elim (Bool-cases (bytes_eq s t)) [ inl e ↦ bytes_eq→eq s t e | inr e ↦ cc ]

abbrev right_or {ℓ κ} : {A : Type ℓ} {B : Type κ} → B → A ⊎ B → B
right_or b (inl a) = b
right_or b (inr c) = c

inr_injective {ℓ κ} : {A : Type ℓ} {B : Type κ} (x y : B) → Path (A ⊎ B) (inr x) (inr y) → x ≡ y
inr_injective x y e = ap (right_or x) e

module _ {ℓ κ} {N : Type ℓ} {C : Type κ} where
  -- Whether an id goes out through the node's transport.
  abbrev pub crosses : Node N C → Bytes → Bytes → Bool
  crosses n id uuid =
      not (is_empty n.node_id) && not (bytes_eq (owner_namespace_of id n.node_id) uuid)

  abbrev pub next_hop : Node N C → Bytes → Bool → Option N
  next_hop n uuid true = n.registry.transport
  next_hop n uuid false = client_of n.registry uuid

  -- Either the id does not split, or its first part leads nowhere, or it leads to a namespace.
  abbrev Answers : Node N C → Bytes → Refusal ⊎ Resolved N → Type ℓ
  Answers n id answer =
      ((split_id id ≡ none) × (answer ≡ inl (unqualified id)))
      ⊎ ((uuid local : Bytes) × (split_id id ≡ some (uuid, local))
          × (((next_hop n uuid (crosses n id uuid) ≡ none) × (answer ≡ inl (dead_link uuid)))
              ⊎ ((ns : N) × (next_hop n uuid (crosses n id uuid) ≡ some ns)
                  × (answer
                      ≡ inr (record {
                        ns = ns;
                        local = local;
                        uuid = uuid;
                        transit = crosses n id uuid;
                      })))))

  hop-Answers :
      (n : Node N C) (id uuid local : Bytes) (hop : Option N)
      → split_id id ≡ some (uuid, local)
      → next_hop n uuid (crosses n id uuid) ≡ hop
      → Answers n id (or_dead id (resolved_at uuid local (crosses n id uuid) hop))
  unfolding uuid_of
  hop-Answers n id uuid local none e h =
      inr (uuid, local, e, inl (h, ap (λ o. inl (dead_link (first_of_split o))) e))
  hop-Answers n id uuid local (some ns) e h = inr (uuid, local, e, inr (ns, h, refl))

  pub resolve_split-next_hop :
      (n : Node N C) (id uuid local : Bytes)
      → resolve_split n id (some (uuid, local))
        ≡ resolved_at uuid local (crosses n id uuid) (next_hop n uuid (crosses n id uuid))
  resolve_split-next_hop n id uuid local = elim (Bool-cases (crosses n id uuid)) [
    | inl e ↦ rw e refl
    | inr e ↦ rw e refl
  ]

  split-Answers :
      (n : Node N C) (id : Bytes) (o : Option (Bytes × Bytes))
      → split_id id ≡ o
      → Answers n id (if is_some o then or_dead id (resolve_split n id o) else inl (unqualified id))
  split-Answers n id none e = inl (e, refl)
  split-Answers n id (some (uuid, local)) e =
      rw (resolve_split-next_hop n id uuid local)
        (hop-Answers n id uuid local (next_hop n uuid (crosses n id uuid)) e refl)

  -- route answers every id in one of three ways. An id that does not split is unqualified. A qualified
  -- one goes out through the transport if the node has an id and does not own the id as its first part,
  -- and else to the client registered under that part; where there is none it is a dead link of that
  -- part, and otherwise the answer is that namespace with the two parts of the id.
  route_to-cases : (n : Node N C) (id : Bytes) → Answers n id (route_to n id)
  unfolding route_to resolve
  route_to-cases n id = split-Answers n id (split_id id) refl

  crosses-own :
      (n : Node N C) (uuid x : Bytes)
      → IsSegment uuid
      → (uuid ≡ n.node_id → is_tile_segment (head_segment x) ≡ true)
      → crosses n (qualify_id uuid x) uuid ≡ false
  unfolding owner_namespace_of
  crosses-own n uuid x whole seg =
      rw (split-qualify uuid x whole)
        (elim (Bool-cases (not (bytes_eq uuid n.node_id) || is_empty n.node_id)) [
          | inl e ↦ rw (e, bytes_eq_refl uuid) (&&_false (not (is_empty n.node_id)))
          | inr e ↦
              rw
                (
                  e,
                  seg (own_of uuid n.node_id e),
                  ||_true (is_empty (head_segment x)),
                  bytes_eq_refl uuid,
                )
                (&&_false (not (is_empty n.node_id)))
        ])

  route_to-leaf :
      (n : Node N C) (uuid x : Bytes) (ns : N)
      → IsSegment uuid
      → client_of n.registry uuid ≡ some ns
      → crosses n (qualify_id uuid x) uuid ≡ false
      → route_to n (qualify_id uuid x)
        ≡ inr (record { ns = ns; local = x; uuid = uuid; transit = false })
  unfolding route_to resolve
  route_to-leaf n uuid x ns whole e c =
      rw (split-qualify uuid x whole, resolve_split-next_hop n (qualify_id uuid x) uuid x, c, e)
        refl

  hop_found :
      (n : Node N C) (id uuid : Bytes) (ns : N) (r : Resolved N)
      → next_hop n uuid (crosses n id uuid) ≡ some ns
      → uuid ≡ r.uuid
      → ns ≡ r.ns
      → crosses n id uuid ≡ r.transit
      → r.transit ≡ false
      → next_hop n r.uuid false ≡ some r.ns
  hop_found n id uuid ns r h u s c t = cc

  -- What a leaf's id was resolved to.
  leaf_of :
      (n : Node N C) (id : Bytes) (r : Resolved N)
      → Answers n id (inr r)
      → r.transit ≡ false
      → IsSegment r.uuid × (client_of n.registry r.uuid ≡ some r.ns)
  leaf_of n id r (inl (whole, a)) t = cc
  leaf_of n id r (inr (uuid, local, s, inl (h, a))) t = cc
  leaf_of n id r (inr (uuid, local, s, inr (ns, h, a))) t =
      let q = inr_injective _ _ (sym a) in
      (
        subst IsSegment (ap (λ z. z.uuid) q) (split_id-eq_some id s).1,
        hop_found n id uuid ns r h (ap (λ z. z.uuid) q) (ap (λ z. z.ns) q) (ap (λ z. z.transit) q)
            t,
      )

  -- Where an id was routed to a client of the node, that client's own ids come back to it: an id that
  -- is qualified by the client's namespace is routed to the same client, as it was written. Where that
  -- namespace is the node's own id, the id begins with a tile's segment.
  pub route_to-comes_back :
      (n : Node N C) (id x : Bytes) (r : Resolved N)
      → route_to n id ≡ inr r
      → r.transit ≡ false
      → (r.uuid ≡ n.node_id → is_tile_segment (head_segment x) ≡ true)
      → route_to n (qualify_id r.uuid x) ≡ inr (record r { local = x })
  route_to-comes_back n id x r e t seg =
      let (whole, found) = leaf_of n id r (subst (Answers n id) e (route_to-cases n id)) t in
      route_to-leaf n r.uuid x r.ns whole found (crosses-own n r.uuid x whole seg)
      ∙ ap (λ b. inr (record { ns = r.ns; local = x; uuid = r.uuid; transit = b })) (sym t)
