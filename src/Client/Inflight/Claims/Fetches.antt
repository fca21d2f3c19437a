-- ===== src/Client/Inflight/Claims/Fetches.antt =====
-- client/inflight/inflight.go: who fetches each key after any run of a claim set.
use gridwell.Base.{
  ℕ, ◌≡◌, refl, ap, Bool, true, false, List, [], ◌∷◌, Option, none, some, Bytes, bytes-Eq, lookup,
}
use gridwell.Client.Inflight.Claims.{ClaimSet, Joined, join, release, empty_claims}
use gridwell.Client.Inflight.Claims.Holders.{empty_claims-IsSound}
use gridwell.Client.Inflight.Claims.Account.{
  Fetch, free, fetching, Account, new_account, ClaimOp, claim_step, account_step, run_claims,
  run_account, Holds, Agrees, joins, owes, releases, cancels,
}
use gridwell.Client.Inflight.Claims.Grants.{join_held-Agrees, owe_held-Agrees, join_at}
use gridwell.Client.Inflight.Claims.Frees.{release-Agrees, cancel_if-Agrees}

step-Agrees :
    (s : ClaimSet) (a : Account) (op : ClaimOp)
    → Agrees s a
    → Agrees (claim_step s op) (account_step a op)
step-Agrees s a (joins key) g = join_held-Agrees s a key (a.fetch key) g refl (g.each key)
step-Agrees s a (owes key) g = owe_held-Agrees s a key (a.fetch key) g (g.each key)
step-Agrees s a (releases key c) g = release-Agrees s a key c g
step-Agrees s a (cancels match) g = cancel_if-Agrees s a match g

steps-Agrees :
    (s : ClaimSet) (a : Account) (ops : List ClaimOp)
    → Agrees s a
    → Agrees (run_claims s ops) (run_account a ops)
steps-Agrees s a [] g = g
steps-Agrees s a (op ∷ ops) g =
    steps-Agrees (claim_step s op) (account_step a op) ops (step-Agrees s a op g)

empty-Agrees : Agrees empty_claims new_account
unfolding lookup
empty-Agrees = record { sound = empty_claims-IsSound; given = refl; each = λ k. refl }

abbrev pub grant_of : Fetch → Option ℕ
grant_of free = none
grant_of (fetching c b) = some c

abbrev pub is_free : Fetch → Bool
is_free free = true
is_free (fetching c b) = false

-- What the release of the claim that fetches a key answers, where one does.
abbrev pub answer_now : ClaimSet → Bytes → Fetch → Option Bool
answer_now s key free = none
answer_now s key (fetching c b) = some (release s key c).1

abbrev pub debt_of : Fetch → Option Bool
debt_of free = none
debt_of (fetching c b) = some b

fetch-answers :
    (s : ClaimSet) (key : Bytes) (f : Fetch)
    → Holds s.heap (lookup key s.held) f
    → (lookup key s.held ≡ grant_of f)
      × ((join s key).ok ≡ is_free f)
      × (answer_now s key f ≡ debt_of f)
unfolding release
fetch-answers s key free o = (o, ap Joined.ok (join_at s key o), refl)
fetch-answers s key (fetching c b) (o, h) = (o, ap Joined.ok (join_at s key o), ap some h)

-- Who fetches a key is as an account has it that knows nothing of the set. A key that is free is granted
-- to who joins it, under a claim of its own; until that claim is released or the key is cancelled every
-- join of it is refused, whatever else is joined and released, late releases of earlier claims of the key
-- among it; and the claim's release answers whether the key changed since it was granted.
pub run_claims-account :
    (ops : List ClaimOp) (key : Bytes)
    → let s = run_claims empty_claims ops in
      let f = (run_account new_account ops).fetch key in
      (lookup key s.held ≡ grant_of f)
      × ((join s key).ok ≡ is_free f)
      × (answer_now s key f ≡ debt_of f)
run_claims-account ops key =
    let g = steps-Agrees empty_claims new_account ops empty-Agrees in
    fetch-answers (run_claims empty_claims ops) key ((run_account new_account ops).fetch key)
      (g.each key)
