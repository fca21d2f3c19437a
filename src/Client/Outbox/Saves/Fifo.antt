-- ===== src/Client/Outbox/Saves/Fifo.antt =====
-- client/outbox/chain.go: the order in which the tasks of a key run.
use gridwell.Base.{
  ℕ, ◌-◌, ◌==◌, ◌≡◌, refl, ap, sym, ◌∙◌, Bool, true, false, List, [], ◌∷◌, ◌++◌, append-nil,
  append_assoc, if◌then◌else◌, Bytes, bytes_eq,
}
use gridwell.Client.Outbox.Saves.{
  Task, writes, held, Run, SaveQueue, write, new_save_queue, add, enqueue, after, hold,
  release_hold, enqueue_after_holds, pick, finish,
}
use gridwell.Client.Outbox.Saves.Served.{
  IsServed, one_when, live, tasks_if, running, ended_by, add-IsServed, add-order, finish-IsServed,
  finish-order, new_save_queue-IsServed,
}

-- The parts of the queue's operations that run under its mutex.
pub data SaveOp {ℓ} (A : Type ℓ) : Type ℓ where
  enqueues afters waits : Bytes → A → SaveOp A
  adds : Bytes → Task A → SaveOp A
  holding releasing : Bytes → SaveOp A
  finishes : ℕ → Bool → SaveOp A

module _ {ℓ} {A : Type ℓ} where
  abbrev save_step : SaveQueue A → SaveOp A → SaveQueue A
  save_step q (enqueues key a) = enqueue q key a
  save_step q (afters key a) = after q key a
  save_step q (waits key a) = (enqueue_after_holds q key a).0
  save_step q (adds key t) = add q key t
  save_step q (holding key) = hold q key
  save_step q (releasing key) = (release_hold q key).0
  save_step q (finishes i landed) = finish q i landed

  -- What an operation adds to the chain of k, and the task of a goroutine of k that it ends.
  abbrev added_on : Bytes → SaveOp A → List (Task A)
  added_on k (enqueues key a) = tasks_if (bytes_eq key k) (writes a ∷ [])
  added_on k (afters key a) = tasks_if (bytes_eq key k) (held a ∷ [])
  added_on k (adds key t) = tasks_if (bytes_eq key k) (t ∷ [])
  added_on k _ = []

  abbrev done_by : Bytes → SaveQueue A → SaveOp A → List (Task A)
  done_by k q (finishes i landed) = ended_by k (pick i q.runs)
  done_by k q _ = []

  abbrev pub run_saves : SaveQueue A → List (SaveOp A) → SaveQueue A
  run_saves q [] = q
  run_saves q (op ∷ ops) = run_saves (save_step q op) ops

  abbrev pub all_added : Bytes → List (SaveOp A) → List (Task A)
  all_added k [] = []
  all_added k (op ∷ ops) = added_on k op ++ all_added k ops

  abbrev pub all_done : Bytes → SaveQueue A → List (SaveOp A) → List (Task A)
  all_done k q [] = []
  all_done k q (op ∷ ops) = done_by k q op ++ all_done k (save_step q op) ops

  -- The tasks of k that are not done, in order.
  abbrev pub chain : Bytes → SaveQueue A → List (Task A)
  chain k q = running k q.runs ++ q.pending k

  -- The same chains, whatever is held and waits.
  abbrev SameChains : SaveQueue A → SaveQueue A → Type ℓ
  SameChains q q' = (q'.busy ≡ q.busy) × (q'.pending ≡ q.pending) × (q'.runs ≡ q.runs)

  same_chain-IsServed :
      (q q' : SaveQueue A) (k : Bytes) → SameChains q q' → IsServed q k → IsServed q' k
  same_chain-IsServed q q' k h v = record {
    one = ap (live k) h.2 ∙ v.one ∙ one_when (ap (λ (b : Bytes → Bool). b k) (sym h.0));
    idle = λ g.
        ap (λ (c : Bytes → List (Task A)). c k) h.1
        ∙ v.idle (ap (λ (b : Bytes → Bool). b k) (sym h.0) ∙ g);
  }

  waits-chain :
      (q : SaveQueue A) (key : Bytes) (a : A) → SameChains q (enqueue_after_holds q key a).0
  unfolding enqueue_after_holds
  waits-chain q key a = one (q.holds key == 0)
    where
      one :
          (b : Bool)
          → SameChains q
              (if◌then◌else◌ {A = SaveQueue A × List (Task A)} b
                (q, writes a ∷ [])
                (record q { waiting = write q.waiting key (q.waiting key ++ writes a ∷ []) }, [])).0
      one true = (refl, refl, refl)
      one false = (refl, refl, refl)

  release-chain : (q : SaveQueue A) (key : Bytes) → SameChains q (release_hold q key).0
  unfolding release_hold
  release-chain q key = one (q.holds key - 1 == 0)
    where
      one :
          (b : Bool)
          → SameChains q
              (if◌then◌else◌ {A = SaveQueue A × List (Task A)} b
                (
                  record q { holds = write q.holds key 0; waiting = write q.waiting key [] },
                  q.waiting key,
                )
                (record q { holds = write q.holds key (q.holds key - 1) }, [])).0
      one true = (refl, refl, refl)
      one false = (refl, refl, refl)

  save_step-IsServed :
      (q : SaveQueue A) (op : SaveOp A) (k : Bytes) → IsServed q k → IsServed (save_step q op) k
  save_step-IsServed q (enqueues key a) k v = unfold enqueue in add-IsServed q key k (writes a) v
  save_step-IsServed q (afters key a) k v = unfold after in add-IsServed q key k (held a) v
  save_step-IsServed q (adds key t) k v = add-IsServed q key k t v
  save_step-IsServed q (finishes i landed) k v = finish-IsServed q i landed k v
  save_step-IsServed q (waits key a) k v = same_chain-IsServed q _ k (waits-chain q key a) v
  save_step-IsServed q (holding key) k v = unfold hold in record { one = v.one; idle = v.idle }
  save_step-IsServed q (releasing key) k v = same_chain-IsServed q _ k (release-chain q key) v

  same_chain : (q q' : SaveQueue A) (k : Bytes) → SameChains q q' → chain k q' ≡ chain k q ++ []
  same_chain q q' k h =
      ap (λ (rs : List (Run A)). running k rs ++ q'.pending k) h.2
      ∙ ap (λ (c : Bytes → List (Task A)). running k q.runs ++ c k) h.1
      ∙ sym (append-nil (chain k q))

  save_step-order :
      (q : SaveQueue A) (op : SaveOp A) (k : Bytes)
      → IsServed q k
      → done_by k q op ++ chain k (save_step q op) ≡ chain k q ++ added_on k op
  save_step-order q (enqueues key a) k v = unfold enqueue in add-order q key k (writes a) v
  save_step-order q (afters key a) k v = unfold after in add-order q key k (held a) v
  save_step-order q (adds key t) k v = add-order q key k t v
  save_step-order q (finishes i landed) k v =
      finish-order q i landed k v ∙ sym (append-nil (chain k q))
  save_step-order q (waits key a) k v =
      same_chain q (enqueue_after_holds q key a).0 k (waits-chain q key a)
  save_step-order q (holding key) k v = unfold hold in sym (append-nil (chain k q))
  save_step-order q (releasing key) k v =
      same_chain q (release_hold q key).0 k (release-chain q key)

  run_saves_from :
      (q : SaveQueue A) (ops : List (SaveOp A)) (k : Bytes)
      → IsServed q k
      → IsServed (run_saves q ops) k
        × (all_done k q ops ++ chain k (run_saves q ops) ≡ chain k q ++ all_added k ops)
  run_saves_from q [] k v = (v, sym (append-nil (chain k q)))
  run_saves_from q (op ∷ ops) k v =
      let more = run_saves_from (save_step q op) ops k (save_step-IsServed q op k v) in
      (
        more.0,
        append_assoc (done_by k q op) (all_done k (save_step q op) ops)
              (chain k (run_saves (save_step q op) ops))
            ∙ ap (λ (ts : List (Task A)). done_by k q op ++ ts) more.1
            ∙ sym (append_assoc (done_by k q op) (chain k (save_step q op)) (all_added k ops))
            ∙ ap (λ (ts : List (Task A)). ts ++ all_added k ops) (save_step-order q op k v)
            ∙ append_assoc (chain k q) (added_on k op) (all_added k ops),
      )

  -- From an empty queue, after any steps of its callers and its goroutines: the tasks that goroutines of a
  -- key have ended, in the order in which they did, then the one that its goroutine runs, then those that
  -- pend on it, are, in order, those that were added to its chain; the key has one goroutine while it is
  -- busy and none else, and nothing pends on a key that is not busy.
  pub run_saves-fifo :
      (k : Bytes) (ops : List (SaveOp A))
      → let q : SaveQueue A = run_saves new_save_queue ops in
        (all_done k new_save_queue ops ++ (running k q.runs ++ q.pending k) ≡ all_added k ops)
        × (live k q.runs ≡ (if q.busy k then 1 else 0))
        × (q.busy k ≡ false → q.pending k ≡ [])
  run_saves-fifo k ops =
      let r = run_saves_from new_save_queue ops k (new_save_queue-IsServed k) in
      (r.1, r.0.one, r.0.idle)
