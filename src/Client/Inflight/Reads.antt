-- ===== src/Client/Inflight/Reads.antt =====
-- client/inflight/reads.go: one kind of read, its claims and its failure latches. Also writes.go.
pub mod Latches
use gridwell.Base.{
  sorted, compact, ℕ, ◌+◌, ◌-◌, Bool, true, false, not, ◌&&◌, ◌||◌, ◌==◌, List, [], ◌∷◌, ◌++◌,
  Option, none, some, if◌then◌else◌, Bytes,
}
use gridwell.Client.Inflight.Keys.{Latch, has, set, clear, clear_if, keys}
use gridwell.Client.Inflight.Claims.{
  ClaimSet, empty_claims, Joined, join, owe, cancel_if, claim_keys,
}

pub data Verdict : Type 0 where
  answered refused unreachable dead abandoned : Verdict

pub record Reads : Type 0 where
  pub claims : ClaimSet
  pub refused_latch : Latch
  pub unreachable_latch : Latch
  pub dead_latch : Latch

pub new_reads : Reads
new_reads = record {
  claims = empty_claims;
  refused_latch = [];
  unreachable_latch = [];
  dead_latch = [];
}

unfoldable pub failed : Reads → Bytes → Bool
failed r key = has r.refused_latch key || has r.unreachable_latch key

-- Reads.Join: none for a latched key, which is neither read nor waited on.
unfoldable pub join_reads : Reads → Bytes → Reads × Option Joined
unfolding failed
join_reads r key =
    if failed r key
    then (r, none)
    else (let j = join r.claims key in (record r { claims = j.claims }, some j))

abbrev pub joined_ok : Option Joined → Bool
joined_ok none = false
joined_ok (some j) = j.ok

-- Reads.Ask
unfoldable pub ask : Reads → Bytes → Reads × Bool
ask r key = let (r', j) = join_reads r key in (r', joined_ok j)

-- Settle past its first test: the dead mark is cleared, and the verdict moves the latches.
abbrev settle_verdict : Reads → Bytes → Verdict → Reads
settle_verdict r key answered = record r {
  refused_latch = clear r.refused_latch key;
  unreachable_latch = clear r.unreachable_latch key;
}
settle_verdict r key refused = record r {
  unreachable_latch = clear r.unreachable_latch key;
  refused_latch = set r.refused_latch key;
}
settle_verdict r key dead = record r {
  unreachable_latch = clear r.unreachable_latch key;
  refused_latch = set r.refused_latch key;
  dead_latch = set r.dead_latch key;
}
settle_verdict r key unreachable = record r {
  refused_latch = clear r.refused_latch key;
  unreachable_latch = set r.unreachable_latch key;
}
settle_verdict r key abandoned = r

abbrev is_abandoned_verdict : Verdict → Bool
is_abandoned_verdict abandoned = true
is_abandoned_verdict _ = false

pub settle : Reads → Bytes → Verdict → Reads
settle r key v =
    if is_abandoned_verdict v
    then r
    else settle_verdict (record r { dead_latch = clear r.dead_latch key }) key v

unfoldable pub is_dead : Reads → Bytes → Bool
is_dead r key = has r.dead_latch key

unfoldable pub is_refused : Reads → Bytes → Bool
is_refused r key = has r.refused_latch key

unfoldable failed_keys : Reads → List Bytes
failed_keys r = compact (sorted (keys r.refused_latch ++ keys r.unreachable_latch))

pub change : Reads → Bytes → Reads
change r key = settle (record r { claims = owe r.claims key }) key answered

pub backstop : Reads → Reads × List Bytes
backstop r = (record r { unreachable_latch = [] }, keys r.unreachable_latch)

-- The keys that a test picks, in order.
abbrev picked : (Bytes → Bool) → List Bytes → List Bytes
picked match [] = []
picked match (k ∷ ks) = let rest = picked match ks in if match k then k ∷ rest else rest

pub clear_reads_if : Reads → (Bytes → Bool) → Reads × List Bytes
clear_reads_if r match = (
  record r {
    refused_latch = clear_if r.refused_latch match;
    dead_latch = clear_if r.dead_latch match;
    unreachable_latch = clear_if r.unreachable_latch match;
  },
  picked match (failed_keys r),
)

-- The loop of ReviveIf over the dead keys.
pub revive_keys : (Bytes → Bool) → List Bytes → Reads → Reads
revive_keys match [] r = r
revive_keys match (k ∷ ks) r = revive_keys match ks (
    if match k
    then record r { refused_latch = clear r.refused_latch k; dead_latch = clear r.dead_latch k }
    else r)

pub revive_if : Reads → (Bytes → Bool) → Reads × List Bytes
revive_if r match = (revive_keys match (keys r.dead_latch) r, picked match (keys r.dead_latch))

pub cancel_reads_if : Reads → (Bytes → Bool) → Reads × List Bytes
cancel_reads_if r match = let (s, ks) = cancel_if r.claims match in (record r { claims = s }, ks)

pub reset : Reads → Reads
reset r = record r { refused_latch = []; dead_latch = []; unreachable_latch = [] }

unfoldable in_flight : Reads → List Bytes
in_flight r = claim_keys r.claims

-- client/inflight/writes.go; the counts do not wrap, and Len is taken while no more has settled than
-- was dispatched.
pub record Writes : Type 0 where
  dispatched : ℕ
  settled : ℕ

unfoldable start_write : Writes → Writes
start_write w = record w { dispatched = w.dispatched + 1 }

unfoldable done_write : Writes → Writes
done_write w = record w { settled = w.settled + 1 }

unfoldable writes_len : Writes → ℕ
writes_len w = w.dispatched - w.settled

unfoldable any_write : Writes → Bool
any_write w = not (writes_len w == 0)
