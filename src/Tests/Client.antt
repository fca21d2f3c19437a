-- ===== src/Tests/Client.antt =====
-- The client's inflight, clientsync and outbox packages on concrete inputs.
use gridwell.Base.{
  ◌≡◌, refl, ℕ, Bool, true, false, not, some, none, bytes, Bytes, List, [], ◌∷◌, bytes-Eq, lookup,
  insert, delete, bytes_eq, arith,
}
use gridwell.Client.Inflight.Claims.{
  ClaimSet, empty_claims, join, release, cancel_if, cancel_all, claim_at,
}
use gridwell.Client.Inflight.Claims.Holders.{release_stale}
use gridwell.Client.Inflight.Claims.Account.{
  ClaimOp, joins, owes, releases, cancels, run_claims, new_account, run_account,
}
use gridwell.Client.Inflight.Claims.Fetches.{
  grant_of, is_free, answer_now, debt_of, run_claims-account,
}
use gridwell.Client.Inflight.Reads.{
  new_reads, settle, ask, failed, is_refused, is_dead, refused, unreachable, dead,
}
use gridwell.Client.Inflight.Reads.Latches.{
  IsLatched, ReadOp, asks, changes, settles, backstops, run_reads, run_reads-IsLatched,
}
use gridwell.Client.Sync.{
  Outcome, transport, dead_link, CallError, unauthenticated, react_read, is_ok, is_dead_link,
}
use gridwell.Client.Sync.Verdicts.{is_verdict, react_read-settle}
use gridwell.Client.Outbox.{Key, Outbox, new_outbox, drain}
use gridwell.Client.Outbox.Owed.{owed}
use gridwell.Client.Outbox.Ledger.{
  OutboxOp, parks, records, syncs, drains, acks, run_outbox, run_ledger, run_outbox-ledger,
}

abbrev grid_a : Bytes
grid_a = bytes "a/1"

abbrev grid_b : Bytes
grid_b = bytes "b/2"

abbrev all_keys : Bytes → Bool
all_keys k = true

-- A fetch is cancelled and a fresh one takes its key before it returns.
abbrev reclaimed : List ClaimOp
reclaimed = joins grid_a ∷ owes grid_a ∷ cancels all_keys ∷ joins grid_a ∷ releases grid_a 0 ∷ []

run_claims-account_example :
    let s = run_claims empty_claims reclaimed in
    let f = (run_account new_account reclaimed).fetch grid_a in
    (lookup grid_a s.held ≡ grant_of f)
    × ((join s grid_a).ok ≡ is_free f)
    × (answer_now s grid_a f ≡ debt_of f)
run_claims-account_example = run_claims-account reclaimed grid_a

abbrev fresh_holder : ClaimSet
fresh_holder = (join (cancel_if (join empty_claims grid_a).claims all_keys).0 grid_a).claims

fresh_holder_held : lookup grid_a fresh_holder.held ≡ some 1
unfolding join cancel_if cancel_all lookup insert delete bytes_eq
fresh_holder_held = refl

release_stale_example :
    let s' = (release fresh_holder grid_a 0).0 in
    (lookup grid_a s'.held ≡ some 1)
    × (claim_at s'.heap 1 ≡ claim_at fresh_holder.heap 1)
    × ((release fresh_holder grid_a 0).1 ≡ (claim_at fresh_holder.heap 0).owed)
release_stale_example =
    release_stale fresh_holder grid_a 0 1 fresh_holder_held (λ e. absurd (omega (arith, e)))

empty_free : lookup grid_a empty_claims.held ≡ none
unfolding lookup
empty_free = refl

abbrev some_reads : List ReadOp
some_reads =
    asks grid_a
    ∷ settles grid_a dead
    ∷ settles grid_b unreachable
    ∷ changes grid_a
    ∷ settles grid_a refused
    ∷ backstops
    ∷ []

run_reads-IsLatched_example : IsLatched (run_reads new_reads some_reads)
run_reads-IsLatched_example = run_reads-IsLatched some_reads

react_read-settle_example :
    let r' = settle (run_reads new_reads some_reads) grid_b (react_read dead_link) in
    (failed r' grid_b ≡ not (is_ok dead_link))
    × (is_refused r' grid_b ≡ is_verdict dead_link)
    × (is_dead r' grid_b ≡ is_dead_link dead_link)
    × ((ask r' grid_b).1 ≡ true → is_ok dead_link ≡ true)
react_read-settle_example = react_read-settle (run_reads new_reads some_reads) grid_b dead_link refl

abbrev refused_call : CallError
refused_call = record {
  is_canceled = false;
  is_deadline = false;
  connect = some (record {
    code = unauthenticated;
    other_build = false;
    source_disabled = false;
    dead = false;
  });
}

abbrev framing_of : Bytes → Key
framing_of id = record { op = bytes "SetFraming"; id = id }

-- A thunk is a number here.
abbrev some_writes : List (OutboxOp ℕ)
some_writes =
    parks (framing_of grid_a) 1
    ∷ parks (framing_of grid_b) 2
    ∷ records transport (framing_of grid_a) (some 3)
    ∷ syncs (grid_a ∷ []) (λ id. 4)
    ∷ acks (framing_of grid_b)
    ∷ drains
    ∷ []

run_outbox-ledger_example :
    (owed (run_outbox new_outbox some_writes).0 ≡ (run_ledger [] some_writes).0)
    × ((run_outbox new_outbox some_writes).1 ≡ (run_ledger [] some_writes).1)
run_outbox-ledger_example = run_outbox-ledger some_writes

-- A call that a drain of the outbox races, and that is not heard.
abbrev raced_call : Outbox ℕ → Outbox ℕ × Outcome
raced_call o = ((drain o).0, transport)
