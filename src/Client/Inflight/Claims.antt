-- ===== src/Client/Inflight/Claims.antt =====
-- client/inflight/inflight.go: claimSet. A *claim is a place in the heap, so that a late release is
-- told from its successor's. A context is whether it was cancelled; its deadline is not modelled.
pub mod Holders
pub mod Account
pub mod Grants
pub mod Frees
pub mod Fetches
use gridwell.Base.{
  sorted, ℕ, zero, suc, Bool, true, false, ◌==◌, List, [], ◌∷◌, ◌++◌, map, Option, none, some,
  if◌then◌else◌, Bytes, bytes-Eq, lookup, insert, delete, length,
}

pub record Claim : Type 0 where
  pub owed : Bool
  pub cancelled : Bool
  ended : Bool

abbrev pub new_claim : Claim
new_claim = record { owed = false; cancelled = false; ended = false }

pub record ClaimSet : Type 0 where
  pub held : List (Bytes × ℕ)
  pub heap : List Claim

abbrev pub empty_claims : ClaimSet
empty_claims = record { held = []; heap = [] }

-- *c, for a pointer that join gave out.
abbrev pub claim_at : List Claim → ℕ → Claim
claim_at [] c = new_claim
claim_at (x ∷ xs) zero = x
claim_at (x ∷ xs) (suc c) = claim_at xs c

abbrev pub write_at : List Claim → ℕ → Claim → List Claim
write_at [] c x = []
write_at (y ∷ ys) zero x = x ∷ ys
write_at (y ∷ ys) (suc c) x = y ∷ write_at ys c x

abbrev pub owe_claim : List Claim → ℕ → List Claim
owe_claim heap c = write_at heap c (record (claim_at heap c) { owed = true })

abbrev pub cancel_claim : List Claim → ℕ → List Claim
cancel_claim heap c = write_at heap c (record (claim_at heap c) { cancelled = true })

abbrev pub end_claim : List Claim → ℕ → List Claim
end_claim heap c = write_at heap c (record (claim_at heap c) { cancelled = true; ended = true })

-- What join answers: the claim that holds the key, and whether this call took it.
pub record Joined : Type 0 where
  pub claims : ClaimSet
  pub claim : ℕ
  pub ok : Bool

abbrev pub join_held : ClaimSet → Bytes → Option ℕ → Joined
join_held s key (some c) = record { claims = s; claim = c; ok = false }
join_held s key none = record {
  claims = record { held = insert key (length s.heap) s.held; heap = s.heap ++ new_claim ∷ [] };
  claim = length s.heap;
  ok = true;
}

unfoldable pub join : ClaimSet → Bytes → Joined
join s key = join_held s key (lookup key s.held)

abbrev pub owe_held : ClaimSet → Option ℕ → ClaimSet
owe_held s none = s
owe_held s (some c) = record s { heap = owe_claim s.heap c }

pub owe : ClaimSet → Bytes → ClaimSet
owe s key = owe_held s (lookup key s.held)

-- s.m[key] == c
abbrev pub holds : Option ℕ → ℕ → Bool
holds none c = false
holds (some d) c = d == c

pub release : ClaimSet → Bytes → ℕ → ClaimSet × Bool
release s key c = (
  record {
    held = if holds (lookup key s.held) c then delete key s.held else s.held;
    heap = end_claim s.heap c;
  },
  (claim_at s.heap c).owed,
)

-- The loop of cancelIf over the claims held.
unfoldable pub cancel_all : (Bytes → Bool) → List (Bytes × ℕ) → ClaimSet → ClaimSet
cancel_all match [] s = s
cancel_all match ((k, c) ∷ rest) s =
    cancel_all match rest
      (if match k then record { held = delete k s.held; heap = cancel_claim s.heap c } else s)

abbrev pub matching : (Bytes → Bool) → List (Bytes × ℕ) → List Bytes
matching match [] = []
matching match ((k, c) ∷ rest) =
    let more = matching match rest in if match k then k ∷ more else more

unfoldable pub cancel_if : ClaimSet → (Bytes → Bool) → ClaimSet × List Bytes
cancel_if s match = (cancel_all match s.held s, sorted (matching match s.held))

-- claimSet.keys
pub claim_keys : ClaimSet → List Bytes
claim_keys s = sorted (matching (λ k. true) s.held)
