-- ===== src/Rpc/Route.antt =====
-- api/rpc/route.go: server.yaml's routes, which send an address to a plugin or outside.
pub mod First
use gridwell.Base.{
  ℕ, ◌≡◌, refl, Bool, true, false, not, ◌&&◌, ◌||◌, List, [], ◌∷◌, Option, none, some,
  if◌then◌else◌, Bytes, bytes, is_empty, bytes_eq,
}
use gridwell.Rpc.Address.{match_address}

pub record Route : Type 0 where
  pub glob : Bytes
  pub plugin : Bytes
  pub outside : Bool

-- The refusals of CheckRoute, by their text.
pub data RouteError : Type 0 where
  match_required both neither : RouteError

-- CheckRoute: none is the nil error.
unfoldable check_route : Route → Option RouteError
check_route r =
    if is_empty r.glob
    then some match_required
    else (if not (is_empty r.plugin) && r.outside
        then some both
        else (if is_empty r.plugin && not r.outside then some neither else none))

pub record Verdict : Type 0 where
  pub plugin : Bytes
  pub outside : Bool
  pub broken : Bytes

pub record Declared : Type 0 where
  pub presents : List Bytes
  pub unknown : Bytes

abbrev pub zero_declared : Declared
zero_declared = record { presents = []; unknown = [] }

abbrev pub plain : Verdict
plain = record { plugin = []; outside = false; broken = [] }

abbrev pub sent_outside : Verdict
sent_outside = record { plugin = []; outside = true; broken = [] }

abbrev pub sent_broken : Route → Declared → Verdict
sent_broken r d = record { plugin = r.plugin; outside = false; broken = d.unknown }

abbrev pub sent_to : Route → Verdict
sent_to r = record { plugin = r.plugin; outside = false; broken = [] }

-- The inner loop: one of the patterns matches.
unfoldable pub presents_any : List Bytes → Bytes → Bool
presents_any [] address = false
presents_any (p ∷ ps) address = match_address p address || presents_any ps address

-- The body of the loop for one route: none goes on to the next.
unfoldable pub decide_route : Bytes → Route → Declared → Option Verdict
decide_route address r d =
    if not (match_address r.glob address)
    then none
    else (if r.outside
        then some sent_outside
        else (if not (is_empty d.unknown)
            then some (sent_broken r d)
            else (if presents_any d.presents address then some (sent_to r) else none)))

abbrev pub or_verdict : Option Verdict → Verdict → Verdict
or_verdict none v = v
or_verdict (some u) v = u

unfoldable pub decide : Bytes → List Route → (Bytes → Declared) → Verdict
decide address [] declared = plain
decide address (r ∷ routes) declared =
    or_verdict (decide_route address r (declared r.plugin)) (decide address routes declared)

-- The fields of a PluginInfo that Routing reads.
pub record PluginRow : Type 0 where
  pub uuid : Bytes
  pub presents : List Bytes
  pub unanswered : Bytes
  pub info_error : Bytes

unfoldable pub declared_by : PluginRow → Declared
declared_by p = record {
  presents = p.presents;
  unknown = if is_empty p.unanswered then p.info_error else p.unanswered;
}

abbrev pub says_something : Declared → Bool
says_something d = not (is_empty d.presents) || not (is_empty d.unknown)

-- One row of the loop: a declaration that says something is filed under the row's uuid.
abbrev pub file_row : PluginRow → (Bytes → Declared) → Bytes → Declared
file_row p m u = if says_something (declared_by p) && bytes_eq p.uuid u then declared_by p else m u

-- The map that Routing builds, as its reads: a later row of a uuid overwrites an earlier one.
unfoldable pub routing_from : (Bytes → Declared) → List PluginRow → Bytes → Declared
routing_from m [] uuid = m uuid
routing_from m (p ∷ ps) uuid = routing_from (file_row p m) ps uuid

unfoldable pub routing : List PluginRow → Bytes → Declared
routing plugins uuid = routing_from (λ u. zero_declared) plugins uuid
