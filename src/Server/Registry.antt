-- ===== src/Server/Registry.antt =====
-- internal/plugin/registry.go: the sources that a node declares, and which of them are switched off. A
-- namespace is an element of N, and what a closer or a stop runs is an element of C; the registry's
-- mutex makes each operation one step.
pub mod Off
use gridwell.Base.{
  Bool, true, false, not, ◌&&◌, List, [], ◌∷◌, ◌++◌, map, Option, none, some, is_some,
  if◌then◌else◌, Bytes, bytes, bytes-Eq, lookup, insert, has_key, contains, in_order, sorted,
}

pub record SourceSwitch {ℓ} (C : Type ℓ) : Type ℓ where
  pub label : Bytes
  pub stop : C

-- off holds the namespaces that are switched off.
pub record Registry {ℓ κ} (N : Type ℓ) (C : Type κ) : Type (ℓ ⊔ κ) where
  pub clients : List (Bytes × N)
  kinds : List (Bytes × Bytes)
  labels : List (Bytes × Bytes)
  pub order : List Bytes
  closers : List (Bytes × C)
  pub transport : Option N
  transport_close : Option C
  pub switches : List (Bytes × SourceSwitch C)
  pub off : List Bytes

-- What Disable answers: an error, or what it ran.
pub data DisableAnswer {ℓ} (C : Type ℓ) : Type ℓ where
  not_declared : DisableAnswer C
  stays_off : DisableAnswer C
  stopped : C → DisableAnswer C

abbrev text_or : Option Bytes → Bytes
text_or none = []
text_or (some t) = t

-- rpc.DisabledReason
abbrev disabled_sentence : Bytes → Bytes
disabled_sentence label = label ++ bytes " is disabled until the node restarts"

module _ {κ} {C : Type κ} where
  abbrev with_closer : Bytes → Option C → List (Bytes × C) → List (Bytes × C)
  with_closer id none closers = closers
  with_closer id (some c) closers = insert id c closers

  abbrev pub label_in : Option (SourceSwitch C) → Bytes
  label_in none = []
  label_in (some sw) = sw.label

  abbrev option_list : Option C → List C
  option_list none = []
  option_list (some c) = c ∷ []

module _ {ℓ κ} {N : Type ℓ} {C : Type κ} where
  abbrev pub new_registry : Registry N C
  new_registry = record {
    clients = [];
    kinds = [];
    labels = [];
    order = [];
    closers = [];
    transport = none;
    transport_close = none;
    switches = [];
    off = [];
  }

  abbrev pub set_label : Registry N C → Bytes → Bytes → Registry N C
  set_label r id label = record r { labels = insert id label r.labels }

  abbrev label_of : Registry N C → Bytes → Bytes
  label_of r id = text_or (lookup id r.labels)

  abbrev pub register : Registry N C → Bytes → Bytes → N → Option C → Registry N C
  register r id kind ns closer = record r {
    clients = insert id ns r.clients;
    kinds = insert id kind r.kinds;
    order = if has_key id r.clients then r.order else r.order ++ id ∷ [];
    closers = with_closer id closer r.closers;
  }

  -- Ordered, with each client for what Get gives of it.
  pub ordered : Registry N C → List (Bytes × N)
  ordered r = in_order r.clients r.order

  abbrev pub set_transport : Registry N C → N → C → Registry N C
  set_transport r ns closer = record r { transport = some ns; transport_close = some closer }

  abbrev pub switch_source : Registry N C → Bytes → Bytes → C → Registry N C
  switch_source r ns label stop = record r {
    switches = insert ns (record { label = label; stop = stop }) r.switches;
  }

  abbrev pub disable_found :
      Registry N C → Bytes → Option (SourceSwitch C) → Registry N C × DisableAnswer C
  disable_found r ns none = (r, not_declared)
  disable_found r ns (some sw) =
      if contains ns r.off then (r, stays_off) else (record r { off = ns ∷ r.off }, stopped sw.stop)

  -- Disable
  unfoldable pub disable : Registry N C → Bytes → Registry N C × DisableAnswer C
  disable r ns = disable_found r ns (lookup ns r.switches)

  abbrev pub is_disabled : Registry N C → Bytes → Bool
  is_disabled r ns = contains ns r.off

  unfoldable pub disabled_reason : Registry N C → Bytes → Bytes
  disabled_reason r ns =
      if is_disabled r ns then disabled_sentence (label_in (lookup ns r.switches)) else []

  unfoldable disabled_now : Registry N C → List Bytes
  disabled_now r = sorted r.off

  abbrev pub client_of : Registry N C → Bytes → Option N
  client_of r id = lookup id r.clients

  -- Close, with the closers in the order that they run: the transport's comes last.
  unfoldable close_registry : Registry N C → Registry N C × List C
  close_registry r =
      (new_registry, map (λ (e : Bytes × C). e.1) r.closers ++ option_list r.transport_close)
