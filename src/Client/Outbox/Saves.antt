-- ===== src/Client/Outbox/Saves.antt =====
-- client/outbox/chain.go: SaveQueue, one content write in flight for each key. Each part that runs
-- under the mutex is one function, a Go map is its reads, and a goroutine of run is an element of runs.
pub mod Served
pub mod Fifo
use gridwell.Base.{
  ℕ, zero, suc, ◌+◌, ◌-◌, ◌==◌, Bool, true, false, List, [], ◌∷◌, ◌++◌, Option, none, some,
  if◌then◌else◌, Bytes, bytes_eq,
}

-- What is added to a chain: a write, or what waits for the writes before it.
pub data Task {ℓ} (A : Type ℓ) : Type ℓ where
  writes : A → Task A
  held : A → Task A

-- A goroutine in run: its key, the task that it runs and whether the last one landed.
pub record Run {ℓ} (A : Type ℓ) : Type ℓ where
  pub key : Bytes
  pub task : Task A
  pub prev : Bool

pub record SaveQueue {ℓ} (A : Type ℓ) : Type ℓ where
  pub busy : Bytes → Bool
  pub pending : Bytes → List (Task A)
  pub holds : Bytes → ℕ
  pub waiting : Bytes → List (Task A)
  pub runs : List (Run A)

-- m[key] = v
abbrev pub write {ℓ} : {V : Type ℓ} → (Bytes → V) → Bytes → V → Bytes → V
write m key v k = if bytes_eq key k then v else m k

module _ {ℓ} {A : Type ℓ} where
  abbrev pub new_save_queue : SaveQueue A
  new_save_queue = record {
    busy = λ k. false;
    pending = λ k. [];
    holds = λ k. 0;
    waiting = λ k. [];
    runs = [];
  }

  -- add, which starts a goroutine for a key that has none.
  pub add : SaveQueue A → Bytes → Task A → SaveQueue A
  add q key task =
      if q.busy key
      then record q { pending = write q.pending key (q.pending key ++ task ∷ []) }
      else record q {
        busy = write q.busy key true;
        runs = record { key = key; task = task; prev = true } ∷ q.runs;
      }

  -- Enqueue
  pub enqueue : SaveQueue A → Bytes → A → SaveQueue A
  enqueue q key task = add q key (writes task)

  -- After: its task answers what the write before it did.
  pub after : SaveQueue A → Bytes → A → SaveQueue A
  after q key task = add q key (held task)

  pub hold : SaveQueue A → Bytes → SaveQueue A
  hold q key = record q { holds = write q.holds key (q.holds key + 1) }

  -- The release of one Hold, once, and the tasks that its caller then adds.
  pub release_hold : SaveQueue A → Bytes → SaveQueue A × List (Task A)
  release_hold q key =
      let left = q.holds key - 1 in
      if left == 0
      then (
        record q { holds = write q.holds key 0; waiting = write q.waiting key [] },
        q.waiting key,
      )
      else (record q { holds = write q.holds key left }, [])

  -- EnqueueAfterHolds up to its add, and the tasks that its caller then adds.
  pub enqueue_after_holds : SaveQueue A → Bytes → A → SaveQueue A × List (Task A)
  enqueue_after_holds q key task =
      if q.holds key == 0
      then (q, writes task ∷ [])
      else (record q { waiting = write q.waiting key (q.waiting key ++ writes task ∷ []) }, [])

  -- What a task answers, for a write that landed or not.
  abbrev pub answered_by : Task A → Bool → Bool → Bool
  answered_by (writes a) prev landed = landed
  answered_by (held a) prev landed = prev

  -- run past a task of its key: the next one, or the end of the goroutine.
  abbrev pub take_next : SaveQueue A → Bytes → Bool → List (Run A) → List (Task A) → SaveQueue A
  take_next q key landed others [] = record q {
    busy = write q.busy key false;
    pending = write q.pending key [];
    runs = others;
  }
  take_next q key landed others (next ∷ rest) = record q {
    pending = write q.pending key rest;
    runs = record { key = key; task = next; prev = landed } ∷ others;
  }

  abbrev pub kept_before : Run A → Option (Run A × List (Run A)) → Option (Run A × List (Run A))
  kept_before r none = none
  kept_before r (some (s, ss)) = some (s, r ∷ ss)

  -- A goroutine picked from the others.
  abbrev pub pick : ℕ → List (Run A) → Option (Run A × List (Run A))
  pick i [] = none
  pick zero (r ∷ rs) = some (r, rs)
  pick (suc i) (r ∷ rs) = kept_before r (pick i rs)

  abbrev pub finish_picked : SaveQueue A → Bool → Option (Run A × List (Run A)) → SaveQueue A
  finish_picked q landed none = q
  finish_picked q landed (some (r, others)) =
      take_next q r.key (answered_by r.task r.prev landed) others (q.pending r.key)

  -- The i-th goroutine's task ends.
  pub finish : SaveQueue A → ℕ → Bool → SaveQueue A
  finish q i landed = finish_picked q landed (pick i q.runs)
