-- ===== src/Server/Routing/Refused.antt =====
-- internal/server/router.go and disabled.go: the writes that name a source that is switched off.
use gridwell.Base.{
  ◌≡◌, refl, subst, ap, sym, ◌⊎◌, inl, inr, true, false, List, [], ◌∷◌, ◌++◌, Option, none, some,
  Bytes, bytes, bytes-Eq, is_empty, Bool-cases, bytes_eq_refl, contains, ℤ, lookup,
}
use gridwell.Wire.{Request, Placement}
use gridwell.Rpc.Segment.{owner_namespace_of}
use gridwell.Rpc.Event.{SelectRequest, SelectRefusal, select_refusal}
use gridwell.Server.Registry.{
  Registry, label_in, SourceSwitch, stopped, disable, disable_found, disabled_reason, is_disabled,
}
use gridwell.Server.Registry.Off.{RegistryOp, run_registry, stays_disabled}
use gridwell.Server.Routing.{
  Node, Resolved, Refusal, unclaimed, select_refused, unless_refused, and_then, refuse_disabled,
  admit, delete_sent, select_sent, select_unless, disabled_then, copy_sent, route_to,
}

-- It answers an error.
abbrev pub IsRefused {μ} : {B : Type μ} → Refusal ⊎ B → Type μ
IsRefused {B = B} x = (why : Refusal) × (x ≡ inl why)

module _ {ℓ} {N : Type ℓ} where
  and_then-IsRefused {μ} :
      {B : Type μ} (x : Refusal ⊎ Resolved N) (f : Resolved N → Refusal ⊎ B)
      → IsRefused x
      → IsRefused (and_then x f)
  and_then-IsRefused x f (why, e) = rw e (why, refl)

  unless_refused-IsRefused :
      (x : Refusal ⊎ Resolved N) (o : Option Refusal) (why : Refusal)
      → o ≡ some why
      → IsRefused (and_then x (unless_refused o))
  unless_refused-IsRefused (inl e) o why h = (e, refl)
  unless_refused-IsRefused (inr r) o why h = rw h (why, refl)

  disabled_then-IsRefused :
      (x : Refusal ⊎ Resolved N) (o : Option Refusal)
      (k : Resolved N → Refusal ⊎ (Resolved N × Option Request))
      → (why : Refusal) × (o ≡ some why)
      → IsRefused (and_then x (λ r. disabled_then o (k r)))
  disabled_then-IsRefused (inl e) o k h = (e, refl)
  disabled_then-IsRefused (inr r) o k (why, h) = rw h (why, refl)

is_empty-append_left : (s t : Bytes) → is_empty t ≡ false → is_empty (s ++ t) ≡ false
is_empty-append_left [] t e = e
is_empty-append_left (c ∷ s) t e = refl

in_front : (ns : Bytes) (off : List Bytes) → contains ns (ns ∷ off) ≡ true
unfolding contains
in_front ns off = rw (bytes_eq_refl ns) refl

module _ {ℓ κ} {N : Type ℓ} {C : Type κ} where
  disabled-reason :
      (r : Registry N C) (ns : Bytes)
      → is_disabled r ns ≡ true
      → is_empty (disabled_reason r ns) ≡ false
  unfolding disabled_reason
  disabled-reason r ns e = rw e (
      is_empty-append_left (label_in (lookup ns r.switches))
        (bytes " is disabled until the node restarts") refl)

  disable-off :
      (r : Registry N C) (ns : Bytes) (stop : C) (found : Option (SourceSwitch C))
      → (disable_found r ns found).1 ≡ stopped stop
      → is_disabled (disable_found r ns found).0 ns ≡ true
  unfolding contains
  disable-off r ns stop none e = cc
  disable-off r ns stop (some sw) e = elim (Bool-cases (contains ns r.off)) [
    | inl on ↦ rw on on
    | inr new ↦ rw new (in_front ns r.off)
  ]

  refuse-disabled :
      (n : Node N C) (id : Bytes)
      → is_empty id ≡ false
      → is_disabled n.registry (owner_namespace_of id n.node_id) ≡ true
      → (why : Refusal) × (refuse_disabled n (id ∷ []) ≡ some why)
  unfolding refuse_disabled
  refuse-disabled n id filled off =
      rw (filled, disabled-reason n.registry (owner_namespace_of id n.node_id) off) (_, refl)

  delete_sent-IsRefused :
      (n : Node N C) (id : Bytes) (version : ℤ) (claim : Option Placement)
      → IsRefused (admit n id)
      → IsRefused (delete_sent n id version claim)
  unfolding delete_sent
  delete_sent-IsRefused n id version none h = (unclaimed, refl)
  delete_sent-IsRefused n id version (some claim) h = and_then-IsRefused (admit n id) _ h

  select_unless-refused :
      (n : Node N C) (req : SelectRequest) (o : Option SelectRefusal)
      → req.all ≡ false
      → IsRefused (admit n req.grid_id)
      → (why : Refusal) × (select_unless n req o ≡ some (inl why))
  select_unless-refused n req (some why) one h = (select_refused why, refl)
  select_unless-refused n req none one h =
      let (why, e) = and_then-IsRefused (admit n req.grid_id) _ h in rw one (why, ap some e)

  -- The node once the registry has changed.
  abbrev with_registry : Node N C → Registry N C → Node N C
  with_registry n r = record n { registry = r }

  keeps-off :
      (r : Registry N C) (ns : Bytes) (stop : C) (ops : List (RegistryOp N C))
      → (disable r ns).1 ≡ stopped stop
      → is_disabled (run_registry (disable r ns).0 ops) ns ≡ true
  unfolding disable
  keeps-off r ns stop ops e =
      stays_disabled ns (disable r ns).0 ops (disable-off r ns stop (lookup ns r.switches) e)

  admit-IsRefused :
      (n : Node N C) (id : Bytes)
      → (why : Refusal) × (refuse_disabled n (id ∷ []) ≡ some why)
      → IsRefused (admit n id)
  unfolding admit
  admit-IsRefused n id (why, e) = unless_refused-IsRefused (route_to n id) _ why e

  -- Once Disable has stopped the source that owns an id, and whatever is done to the registry after that,
  -- the router refuses each delete of a tile with that id, each select that names it as its one grid, and
  -- each copy into it. The id is not empty.
  pub disable-refuses :
      (n : Node N C) (id : Bytes) (stop : C) (ops : List (RegistryOp N C))
      → is_empty id ≡ false
      → let ns = owner_namespace_of id n.node_id in
        (disable n.registry ns).1 ≡ stopped stop
        → let later = with_registry n (run_registry (disable n.registry ns).0 ops) in
          ((version : ℤ) (claim : Option Placement)
            → IsRefused (delete_sent later id version claim))
          × ((req : SelectRequest)
              → req.grid_id ≡ id
              → req.all ≡ false
              → (why : Refusal) × (select_sent later req ≡ some (inl why)))
          × ((tile_id : Bytes) (x y : ℤ) → IsRefused (copy_sent later tile_id id x y))
  unfolding select_sent copy_sent
  disable-refuses n id stop ops filled e =
      let later =
        with_registry n
          (run_registry (disable n.registry (owner_namespace_of id n.node_id)).0 ops) in
      let why =
        refuse-disabled later id filled
          (keeps-off n.registry (owner_namespace_of id n.node_id) stop ops e) in
      let refused = admit-IsRefused later id why in
      (
        λ version claim. delete_sent-IsRefused later id version claim refused,
        λ req g one.
            select_unless-refused later req (select_refusal req) one
              (subst (λ (i : Bytes). IsRefused (admit later i)) (sym g) refused),
        λ tile_id x y.
            disabled_then-IsRefused (route_to later tile_id) (refuse_disabled later (id ∷ [])) _
              why,
      )
