-- ===== src/Client/Inflight/Claims/Account.antt =====
-- client/inflight/inflight.go: runs of a claim set beside an account of who fetches each key.
use gridwell.Base.{
  ℕ, ◌+◌, ◌≡◌, ◌∙◌, inl, inr, Bool, true, false, ◌==◌, List, [], ◌∷◌, Option, none, some,
  if◌then◌else◌, Bytes, bytes_eq, bytes-Eq, bytes_eq→eq, lookup, length, Bool-cases,
}
use gridwell.Client.Inflight.Claims.{Claim, ClaimSet, claim_at, join, owe, release, cancel_if}
use gridwell.Client.Inflight.Claims.Holders.{IsSound}

-- What a client may do to a claim set.
pub data ClaimOp : Type 0 where
  joins owes : Bytes → ClaimOp
  releases : Bytes → ℕ → ClaimOp
  cancels : (Bytes → Bool) → ClaimOp

abbrev pub claim_step : ClaimSet → ClaimOp → ClaimSet
claim_step s (joins k) = (join s k).claims
claim_step s (owes k) = owe s k
claim_step s (releases k c) = (release s k c).0
claim_step s (cancels match) = (cancel_if s match).0

abbrev pub run_claims : ClaimSet → List ClaimOp → ClaimSet
run_claims s [] = s
run_claims s (op ∷ ops) = run_claims (claim_step s op) ops

-- Whether a key is being fetched, by the claim of which grant, and whether it changed since.
pub data Fetch : Type 0 where
  free : Fetch
  fetching : ℕ → Bool → Fetch

-- The grants given so far, and each key's fetch.
pub record Account : Type 0 where
  pub grants : ℕ
  pub fetch : Bytes → Fetch

abbrev pub new_account : Account
new_account = record { grants = 0; fetch = λ k. free }

abbrev pub put_fetch : (Bytes → Fetch) → Bytes → Fetch → Bytes → Fetch
put_fetch m key f k = if bytes_eq key k then f else m k

-- A key that is free is granted to who joins; one that is being fetched is not.
abbrev pub joined : Account → Bytes → Fetch → Account
joined a key free = record {
  grants = a.grants + 1;
  fetch = put_fetch a.fetch key (fetching a.grants false);
}
joined a key (fetching c b) = a

abbrev pub marked : Fetch → Fetch
marked free = free
marked (fetching c b) = fetching c true

-- Only the grant that fetches a key frees it.
abbrev pub freed : ℕ → Fetch → Fetch
freed c free = free
freed c (fetching d b) = if d == c then free else fetching d b

abbrev pub account_step : Account → ClaimOp → Account
account_step a (joins key) = joined a key (a.fetch key)
account_step a (owes key) = record a { fetch = put_fetch a.fetch key (marked (a.fetch key)) }
account_step a (releases key c) = record a { fetch = put_fetch a.fetch key (freed c (a.fetch key)) }
account_step a (cancels match) = record a { fetch = λ k. if match k then free else a.fetch k }

abbrev pub run_account : Account → List ClaimOp → Account
run_account a [] = a
run_account a (op ∷ ops) = run_account (account_step a op) ops

-- What the set holds of a key that the account says this of.
abbrev pub Holds : List Claim → Option ℕ → Fetch → Type 0
Holds heap o free = o ≡ none
Holds heap o (fetching c b) = (o ≡ some c) × ((claim_at heap c).owed ≡ b)

pub record Agrees (s : ClaimSet) (a : Account) : Type 0 where
  pub sound : IsSound s
  pub given : length s.heap ≡ a.grants
  pub each : (k : Bytes) → Holds s.heap (lookup k s.held) (a.fetch k)

pub Holds-heap :
    (heap heap' : List Claim) (o : Option ℕ) (f : Fetch)
    → ((c : ℕ) → o ≡ some c → (claim_at heap' c).owed ≡ (claim_at heap c).owed)
    → Holds heap o f
    → Holds heap' o f
Holds-heap heap heap' o free same e = e
Holds-heap heap heap' o (fetching c b) same (e, h) = (e, same c e ∙ h)

pub by_key :
    (key k : Bytes) (heap : List Claim) (held : List (Bytes × ℕ)) (f : Fetch) (m : Bytes → Fetch)
    → (key ≡ k → Holds heap (lookup k held) f)
    → (bytes_eq key k ≡ false → Holds heap (lookup k held) (m k))
    → Holds heap (lookup k held) (put_fetch m key f k)
by_key key k heap held f m own other = elim (Bool-cases (bytes_eq key k)) [
  | inl q ↦ rw q (own (bytes_eq→eq key k q))
  | inr q ↦ rw q (other q)
]
