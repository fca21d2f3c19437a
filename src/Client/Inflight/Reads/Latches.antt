-- ===== src/Client/Inflight/Reads/Latches.antt =====
-- client/inflight/reads.go: which latch a key stands on after any operations.
use gridwell.Base.{
  ◌≡◌, refl, ◌∙◌, Bool, true, false, ◌&&◌, List, [], ◌∷◌, Option, none, some, if◌then◌else◌, Bytes,
  bytes_eq, bytes_eq_refl, bytes_eq_comm, arith, bytes-Eq,
}
use gridwell.Client.Inflight.Keys.{
  Latch, has, set, clear, keys, has-set, has-clear, has-clear_if, has-empty,
}
use gridwell.Client.Inflight.Claims.{ClaimSet, join, Joined}
use gridwell.Client.Inflight.Reads.{
  Verdict, answered, refused, unreachable, dead, abandoned, Reads, new_reads, failed, join_reads,
  settle, is_dead, change, backstop, clear_reads_if, revive_keys, revive_if, cancel_reads_if, reset,
}

-- A dead key is refused, and no key is both refused and unreachable.
pub record IsLatched (r : Reads) : Type 0 where
  dead_refused : (k : Bytes) → has r.dead_latch k ≡ true → has r.refused_latch k ≡ true
  one_latch : (k : Bytes) → (has r.refused_latch k && has r.unreachable_latch k) ≡ false

settle-IsLatched :
    (r : Reads) (key : Bytes) (v : Verdict) → IsLatched r → IsLatched (settle r key v)
unfolding settle
settle-IsLatched r key answered l = record {
  dead_refused = λ k h.
      ground
        (arith, has-clear r.dead_latch key k, has-clear r.refused_latch key k, l.dead_refused k);
  one_latch = λ k.
      ground (
        arith,
        has-clear r.refused_latch key k,
        has-clear r.unreachable_latch key k,
        l.one_latch k,
      );
}
settle-IsLatched r key refused l = record {
  dead_refused = λ k h.
      ground (arith, has-clear r.dead_latch key k, has-set r.refused_latch key k, l.dead_refused k);
  one_latch = λ k. ground (
    arith,
    has-set r.refused_latch key k,
    has-clear r.unreachable_latch key k,
    l.one_latch k,
    bytes_eq_comm key k,
  );
}
settle-IsLatched r key dead l = record {
  dead_refused = λ k h. ground (
    arith,
    has-set (clear r.dead_latch key) key k,
    has-clear r.dead_latch key k,
    has-set r.refused_latch key k,
    l.dead_refused k,
  );
  one_latch = λ k. ground (
    arith,
    has-set r.refused_latch key k,
    has-clear r.unreachable_latch key k,
    l.one_latch k,
    bytes_eq_comm key k,
  );
}
settle-IsLatched r key unreachable l = record {
  dead_refused = λ k h.
      ground
        (arith, has-clear r.dead_latch key k, has-clear r.refused_latch key k, l.dead_refused k);
  one_latch = λ k. ground (
    arith,
    has-clear r.refused_latch key k,
    has-set r.unreachable_latch key k,
    l.one_latch k,
    bytes_eq_comm key k,
  );
}
settle-IsLatched r key abandoned l = l

-- Other claims under the same latches.
same_latches : (r : Reads) (s : ClaimSet) → IsLatched r → IsLatched (record r { claims = s })
same_latches r s l = record { dead_refused = l.dead_refused; one_latch = l.one_latch }

change-IsLatched : (r : Reads) (key : Bytes) → IsLatched r → IsLatched (change r key)
unfolding change
change-IsLatched r key l = settle-IsLatched _ key answered (same_latches r _ l)

backstop-IsLatched : (r : Reads) → IsLatched r → IsLatched (backstop r).0
unfolding backstop
backstop-IsLatched r l = record {
  dead_refused = l.dead_refused;
  one_latch = λ k. ground (arith, has-empty k);
}

clear_reads_if-IsLatched :
    (r : Reads) (match : Bytes → Bool) → IsLatched r → IsLatched (clear_reads_if r match).0
unfolding clear_reads_if
clear_reads_if-IsLatched r match l = record {
  dead_refused = λ k h. ground (
    arith,
    has-clear_if r.dead_latch match k,
    has-clear_if r.refused_latch match k,
    l.dead_refused k,
  );
  one_latch = λ k. ground (
    arith,
    has-clear_if r.refused_latch match k,
    has-clear_if r.unreachable_latch match k,
    l.one_latch k,
  );
}

-- A key taken off the refused and the dead latches.
revived_one :
    (r : Reads) (key : Bytes)
    → IsLatched r
    → IsLatched (record r {
      refused_latch = clear r.refused_latch key;
      dead_latch = clear r.dead_latch key;
    })
revived_one r key l = record {
  dead_refused = λ k h.
      ground
        (arith, has-clear r.dead_latch key k, has-clear r.refused_latch key k, l.dead_refused k);
  one_latch = λ k. ground (arith, has-clear r.refused_latch key k, l.one_latch k);
}

revive_keys-IsLatched :
    (match : Bytes → Bool) (ks : List Bytes) (r : Reads)
    → IsLatched r
    → IsLatched (revive_keys match ks r)
unfolding revive_keys
revive_keys-IsLatched match [] r l = l
revive_keys-IsLatched match (k ∷ ks) r l = revive_keys-IsLatched match ks _ (one (match k))
  where
    one :
        (b : Bool)
        → IsLatched (
            if b
            then record r {
              refused_latch = clear r.refused_latch k;
              dead_latch = clear r.dead_latch k;
            }
            else r)
    one true = revived_one r k l
    one false = l

reset-IsLatched : (r : Reads) → IsLatched (reset r)
unfolding reset
reset-IsLatched r = record {
  dead_refused = λ k h. ground (arith, has-empty k);
  one_latch = λ k. ground (arith, has-empty k);
}

join_reads-IsLatched : (r : Reads) (key : Bytes) → IsLatched r → IsLatched (join_reads r key).0
unfolding join_reads
join_reads-IsLatched r key l = one (failed r key)
  where
    one :
        (b : Bool)
        → IsLatched
            (if◌then◌else◌ {A = Reads × Option Joined} b
              (r, none)
              (record r { claims = (join r.claims key).claims }, some (join r.claims key))).0
    one true = l
    one false = same_latches r _ l

-- What a client may do to the reads.
pub data ReadOp : Type 0 where
  asks changes : Bytes → ReadOp
  settles : Bytes → Verdict → ReadOp
  clears revives cancels : (Bytes → Bool) → ReadOp
  backstops resets : ReadOp

read_step : Reads → ReadOp → Reads
read_step r (asks k) = (join_reads r k).0
read_step r (changes k) = change r k
read_step r (settles k v) = settle r k v
read_step r (clears match) = (clear_reads_if r match).0
read_step r (revives match) = (revive_if r match).0
read_step r (cancels match) = (cancel_reads_if r match).0
read_step r backstops = (backstop r).0
read_step r resets = reset r

pub run_reads : Reads → List ReadOp → Reads
run_reads r [] = r
run_reads r (op ∷ ops) = run_reads (read_step r op) ops

read_step-IsLatched : (r : Reads) (op : ReadOp) → IsLatched r → IsLatched (read_step r op)
unfolding read_step revive_if cancel_reads_if
read_step-IsLatched r (asks k) l = join_reads-IsLatched r k l
read_step-IsLatched r (changes k) l = change-IsLatched r k l
read_step-IsLatched r (settles k v) l = settle-IsLatched r k v l
read_step-IsLatched r (clears match) l = clear_reads_if-IsLatched r match l
read_step-IsLatched r (revives match) l = revive_keys-IsLatched match (keys r.dead_latch) r l
read_step-IsLatched r (cancels match) l = same_latches r _ l
read_step-IsLatched r backstops l = backstop-IsLatched r l
read_step-IsLatched r resets l = reset-IsLatched r

run_reads-IsLatched_from :
    (r : Reads) (ops : List ReadOp) → IsLatched r → IsLatched (run_reads r ops)
unfolding run_reads
run_reads-IsLatched_from r [] l = l
run_reads-IsLatched_from r (op ∷ ops) l =
    run_reads-IsLatched_from (read_step r op) ops (read_step-IsLatched r op l)

new_reads-IsLatched : IsLatched new_reads
unfolding new_reads
new_reads-IsLatched = record {
  dead_refused = λ k h. ground (arith, has-empty k);
  one_latch = λ k. ground (arith, has-empty k);
}

-- After any asks, verdicts, changes, clears, revivals, cancels, backstops and resets, a key whose
-- last word was dead is refused, and no key stands refused and unreachable at once.
pub run_reads-IsLatched : (ops : List ReadOp) → IsLatched (run_reads new_reads ops)
run_reads-IsLatched ops = run_reads-IsLatched_from new_reads ops new_reads-IsLatched

-- What a verdict leaves of a key: refused, unreachable and dead, in that order.
abbrev pub verdict_marks : Reads → Bytes → Verdict → Bool × Bool × Bool
verdict_marks r key answered = (false, false, false)
verdict_marks r key refused = (true, false, false)
verdict_marks r key unreachable = (false, true, false)
verdict_marks r key dead = (true, false, true)
verdict_marks r key abandoned =
    (has r.refused_latch key, has r.unreachable_latch key, has r.dead_latch key)

set_self : (l : Latch) (key : Bytes) → has (set l key) key ≡ true
set_self l key = ground (arith, has-set l key key, bytes_eq_refl key)

clear_self : (l : Latch) (key : Bytes) → has (clear l key) key ≡ false
clear_self l key = ground (arith, has-clear l key key, bytes_eq_refl key)

set_other : (l : Latch) (key k : Bytes) → bytes_eq k key ≡ false → has (set l key) k ≡ has l k
set_other l key k h = ground (arith, has-set l key k, bytes_eq_comm key k)

clear_other : (l : Latch) (key k : Bytes) → bytes_eq k key ≡ false → has (clear l key) k ≡ has l k
clear_other l key k h = ground (arith, has-clear l key k)

-- A verdict decides the latches of its own key, an abandoned one moving none, and leaves every other
-- key's alone.
pub settle-latches :
    (r : Reads) (key : Bytes) (v : Verdict)
    → ((
      has (settle r key v).refused_latch key,
      has (settle r key v).unreachable_latch key,
      is_dead (settle r key v) key,
    )
        ≡ verdict_marks r key v)
      × ((k : Bytes)
          → bytes_eq k key ≡ false
          → (failed (settle r key v) k ≡ failed r k) × (is_dead (settle r key v) k ≡ is_dead r k))
unfolding settle failed is_dead
settle-latches r key answered = (
  simp (
    clear_self r.refused_latch key,
    clear_self r.unreachable_latch key,
    clear_self r.dead_latch key,
  ),
  λ k h. (
    simp (clear_other r.refused_latch key k h, clear_other r.unreachable_latch key k h),
    clear_other r.dead_latch key k h,
  ),
)
settle-latches r key refused = (
  simp (
    set_self r.refused_latch key,
    clear_self r.unreachable_latch key,
    clear_self r.dead_latch key,
  ),
  λ k h. (
    simp (set_other r.refused_latch key k h, clear_other r.unreachable_latch key k h),
    clear_other r.dead_latch key k h,
  ),
)
settle-latches r key dead = (
  simp (
    set_self r.refused_latch key,
    clear_self r.unreachable_latch key,
    set_self (clear r.dead_latch key) key,
  ),
  λ k h. (
    simp (set_other r.refused_latch key k h, clear_other r.unreachable_latch key k h),
    set_other (clear r.dead_latch key) key k h ∙ clear_other r.dead_latch key k h,
  ),
)
settle-latches r key unreachable = (
  simp (
    clear_self r.refused_latch key,
    set_self r.unreachable_latch key,
    clear_self r.dead_latch key,
  ),
  λ k h. (
    simp (clear_other r.refused_latch key k h, set_other r.unreachable_latch key k h),
    clear_other r.dead_latch key k h,
  ),
)
settle-latches r key abandoned = (refl, λ k h. (refl, refl))
