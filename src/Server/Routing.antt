-- ===== src/Server/Routing.antt =====
-- internal/server/server.go, router.go and disabled.go: which source an id is routed to, and what of a
-- write the router refuses or sends there.
pub mod Answers
pub mod Table
pub mod Refused
use gridwell.Base.{
  ◌⊎◌, inl, inr, Bool, true, false, not, ◌&&◌, ◌||◌, List, [], ◌∷◌, Option, none, some, is_some,
  if◌then◌else◌, Bytes, bytes_eq, is_empty, ℤ, ℕ,
}
use gridwell.Wire.{Request, Placement, delete_tile, copy_tile, set_selection}
use gridwell.Rpc.Id.{split_id, uuid_of}
use gridwell.Rpc.Segment.{owner_namespace_of, shared_owner}
use gridwell.Rpc.Transit.{inbound_hop, peel_request}
use gridwell.Rpc.Event.{SelectRequest, SelectRefusal, select_refusal}
use gridwell.Server.Registry.{Registry, client_of, disabled_reason}

pub record Node {ℓ κ} (N : Type ℓ) (C : Type κ) : Type (ℓ ⊔ κ) where
  pub node_id : Bytes
  pub registry : Registry N C

-- What resolve answers when it finds the namespace.
pub record Resolved {ℓ} (N : Type ℓ) : Type ℓ where
  pub ns : N
  pub local : Bytes
  pub uuid : Bytes
  pub transit : Bool

-- The refusals of the router: InvalidArgument for an id that is not qualified, a dead link, a source that
-- is switched off, a write without a claim, and a select that names no set.
pub data Refusal : Type 0 where
  unqualified : Bytes → Refusal
  dead_link : Bytes → Refusal
  source_disabled : Bytes → Bytes → Refusal
  unclaimed : Refusal
  select_refused : SelectRefusal → Refusal

abbrev pub resolved_at {ℓ} : {N : Type ℓ} → Bytes → Bytes → Bool → Option N → Option (Resolved N)
resolved_at uuid local transit none = none
resolved_at uuid local transit (some ns) =
    some (record { ns = ns; local = local; uuid = uuid; transit = transit })

abbrev pub or_dead {ℓ} : {N : Type ℓ} → Bytes → Option (Resolved N) → Refusal ⊎ Resolved N
or_dead id none = inl (dead_link (uuid_of id))
or_dead id (some r) = inr r

abbrev with_tile_id : Bytes → Request → Request
with_tile_id id (delete_tile tile_id version claim) = delete_tile id version claim
with_tile_id id req = req

module _ {ℓ} {N : Type ℓ} where
  abbrev pub unless_refused : Option Refusal → Resolved N → Refusal ⊎ Resolved N
  unless_refused none r = inr r
  unless_refused (some e) r = inl e

  abbrev pub and_then {μ} :
      {B : Type μ} → Refusal ⊎ Resolved N → (Resolved N → Refusal ⊎ B) → Refusal ⊎ B
  and_then (inl e) f = inl e
  and_then (inr r) f = f r

  abbrev pub disabled_then :
      Option Refusal
      → Refusal ⊎ (Resolved N × Option Request)
      → Refusal ⊎ (Resolved N × Option Request)
  disabled_then none k = k
  disabled_then (some e) k = inl e

module _ {ℓ κ} {N : Type ℓ} {C : Type κ} where
  abbrev pub resolve_split : Node N C → Bytes → Option (Bytes × Bytes) → Option (Resolved N)
  resolve_split n id none = none
  resolve_split n id (some (uuid, local)) =
      if not (is_empty n.node_id) && not (bytes_eq (owner_namespace_of id n.node_id) uuid)
      then resolved_at uuid local true n.registry.transport
      else resolved_at uuid local false (client_of n.registry uuid)

  -- Server.resolve
  unfoldable pub resolve : Node N C → Bytes → Option (Resolved N)
  resolve n id = resolve_split n id (split_id id)

  -- router.route
  unfoldable pub route_to : Node N C → Bytes → Refusal ⊎ Resolved N
  route_to n id = if is_some (split_id id) then or_dead id (resolve n id) else inl (unqualified id)

  -- router.refuseDisabled: none is nil.
  pub refuse_disabled : Node N C → List Bytes → Option Refusal
  refuse_disabled n [] = none
  refuse_disabled n (id ∷ ids) =
      let rest = refuse_disabled n ids in
      let ns = owner_namespace_of id n.node_id in
      let reason = disabled_reason n.registry ns in
      if is_empty id || is_empty reason then rest else some (source_disabled ns reason)

  -- route of the id that a write names, then refuseDisabled of it.
  pub admit : Node N C → Bytes → Refusal ⊎ Resolved N
  admit n id = and_then (route_to n id) (unless_refused (refuse_disabled n (id ∷ [])))

  -- DeleteTile up to its call; the ephemerals of a workspace tile are not looked at.
  pub delete_sent : Node N C → Bytes → ℤ → Option Placement → Refusal ⊎ (Resolved N × Request)
  delete_sent n tile_id version none = inl unclaimed
  delete_sent n tile_id version (some claim) = and_then (admit n tile_id) λ r. inr (
    r,
    with_tile_id r.local (
        peel_request (inbound_hop tile_id n.node_id r.transit)
          (delete_tile tile_id version (some claim))),
  )

  abbrev one_grid : Node N C → SelectRequest → Refusal ⊎ (Resolved N × Request)
  one_grid n req = and_then (admit n req.grid_id) λ r. inr (
    r,
    peel_request (inbound_hop req.grid_id n.node_id r.transit)
        (set_selection req.grid_id req.add req.remove req.clear req.recurse req.all),
  )

  abbrev pub select_unless :
      Node N C → SelectRequest → Option SelectRefusal → Option (Refusal ⊎ (Resolved N × Request))
  select_unless n req (some why) = some (inl (select_refused why))
  select_unless n req none = if req.all then none else some (one_grid n req)

  -- SetSelection up to its call, none for a select of all, which clearAllSelections takes.
  pub select_sent : Node N C → SelectRequest → Option (Refusal ⊎ (Resolved N × Request))
  select_sent n req = select_unless n req (select_refusal req)

  -- CopyTile up to its call, none for a copy that is made across sources.
  pub copy_sent : Node N C → Bytes → Bytes → ℤ → ℤ → Refusal ⊎ (Resolved N × Option Request)
  copy_sent n tile_id dest x y = and_then (route_to n tile_id) λ r.
      disabled_then (refuse_disabled n (dest ∷ [])) (
        if is_empty (shared_owner tile_id dest n.node_id)
        then inr (r, none)
        else inr (
          r,
          some
              (peel_request (inbound_hop tile_id n.node_id r.transit) (copy_tile tile_id dest x y)),
        ))
