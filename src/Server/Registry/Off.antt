-- ===== src/Server/Registry/Off.antt =====
-- internal/plugin/registry.go: runs of the registry, with how often each source is stopped.
use gridwell.Base.{
  ℕ, ◌+◌, ◌≤◌, ◌≡◌, refl, ap, Bool, true, false, List, [], ◌∷◌, Option, none, some, if◌then◌else◌,
  Bytes, bytes_eq, bytes_eq_iff, bytes-Eq, lookup, contains, one_if, arith, Bool-cases, inl, inr,
}
use gridwell.Server.Registry.{
  Registry, SourceSwitch, DisableAnswer, not_declared, stays_off, stopped, new_registry, set_label,
  register, set_transport, switch_source, disable_found, disable, is_disabled,
}

-- What a node does to its registry before it closes it.
pub data RegistryOp {ℓ κ} (N : Type ℓ) (C : Type κ) : Type (ℓ ⊔ κ) where
  registers : Bytes → Bytes → N → Option C → RegistryOp N C
  labels_source : Bytes → Bytes → RegistryOp N C
  sets_transport : N → C → RegistryOp N C
  switches_source : Bytes → Bytes → C → RegistryOp N C
  disables : Bytes → RegistryOp N C

one_if-true : (b : Bool) → 1 ≤ one_if b → b ≡ true
one_if-true true e = refl
one_if-true false e = absurd (omega arith)

module _ {κ} {C : Type κ} where
  abbrev ran_stop : DisableAnswer C → ℕ
  ran_stop not_declared = 0
  ran_stop stays_off = 0
  ran_stop (stopped c) = 1

module _ {ℓ κ} {N : Type ℓ} {C : Type κ} where
  abbrev registry_step : Registry N C → RegistryOp N C → Registry N C
  registry_step r (registers id kind ns closer) = register r id kind ns closer
  registry_step r (labels_source id label) = set_label r id label
  registry_step r (sets_transport ns closer) = set_transport r ns closer
  registry_step r (switches_source ns label stop) = switch_source r ns label stop
  registry_step r (disables ns) = (disable r ns).0

  abbrev pub run_registry : Registry N C → List (RegistryOp N C) → Registry N C
  run_registry r [] = r
  run_registry r (op ∷ ops) = run_registry (registry_step r op) ops

  -- How often a run stops a source.
  abbrev stops_in : Bytes → Registry N C → RegistryOp N C → ℕ
  stops_in ns r (disables j) = if bytes_eq j ns then ran_stop (disable r j).1 else 0
  stops_in ns r _ = 0

  abbrev pub stops : Bytes → Registry N C → List (RegistryOp N C) → ℕ
  stops ns r [] = 0
  stops ns r (op ∷ ops) = stops_in ns r op + stops ns (registry_step r op) ops

  disable_found-stops :
      (ns j : Bytes) (r : Registry N C) (found : Option (SourceSwitch C))
      → one_if (is_disabled r ns)
          + (if bytes_eq j ns then ran_stop (disable_found r j found).1 else 0)
        ≡ one_if (is_disabled (disable_found r j found).0 ns)
  unfolding contains
  disable_found-stops ns j r none = ground (arith, bytes_eq_iff j ns)
  disable_found-stops ns j r (some sw) = elim (Bool-cases (contains j r.off)) [
    | inl e ↦ rw e (ground (arith, bytes_eq_iff j ns))
    | inr e ↦ rw e (ground (arith, bytes_eq_iff j ns, e))
  ]

  step-stops :
      (ns : Bytes) (r : Registry N C) (op : RegistryOp N C)
      → one_if (is_disabled r ns) + stops_in ns r op ≡ one_if (is_disabled (registry_step r op) ns)
  unfolding disable
  step-stops ns r (disables j) = disable_found-stops ns j r (lookup j r.switches)
  step-stops ns r (registers id kind n closer) = omega arith
  step-stops ns r (labels_source id label) = omega arith
  step-stops ns r (sets_transport n closer) = omega arith
  step-stops ns r (switches_source j label stop) = omega arith

  steps-stops :
      (ns : Bytes) (r : Registry N C) (ops : List (RegistryOp N C))
      → one_if (is_disabled r ns) + stops ns r ops ≡ one_if (is_disabled (run_registry r ops) ns)
  steps-stops ns r [] = omega arith
  steps-stops ns r (op ∷ ops) =
      omega (arith, step-stops ns r op, steps-stops ns (registry_step r op) ops)

  -- What is off stays off.
  pub stays_disabled :
      (ns : Bytes) (r : Registry N C) (ops : List (RegistryOp N C))
      → is_disabled r ns ≡ true
      → is_disabled (run_registry r ops) ns ≡ true
  stays_disabled ns r ops e =
      one_if-true (is_disabled (run_registry r ops) ns)
        (omega (arith, steps-stops ns r ops, ap one_if e))

  -- Whatever a node does to a new registry short of closing it, a source was stopped once if it is off,
  -- and never else.
  pub run_registry-stops :
      (ns : Bytes) (ops : List (RegistryOp N C))
      → stops ns new_registry ops ≡ one_if (is_disabled (run_registry new_registry ops) ns)
  unfolding contains
  run_registry-stops ns ops = omega (arith, steps-stops ns new_registry ops)
