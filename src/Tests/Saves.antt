-- ===== src/Tests/Saves.antt =====
-- The save queue of client/outbox/chain.go on a concrete run.
use gridwell.Base.{◌≡◌, ℕ, true, false, bytes, List, [], ◌∷◌, ◌++◌, if◌then◌else◌}
use gridwell.Client.Outbox.Saves.{SaveQueue, writes, new_save_queue}
use gridwell.Client.Outbox.Saves.Served.{live, running}
use gridwell.Client.Outbox.Saves.Fifo.{
  SaveOp, enqueues, afters, waits, adds, holding, releasing, finishes, run_saves, all_added,
  all_done, run_saves-fifo,
}

-- Two writes, one that waits for a hold, and a flush behind them; a write is a number here.
abbrev some_saves : List (SaveOp ℕ)
some_saves =
    enqueues (bytes "a/1") 1
    ∷ holding (bytes "a/1")
    ∷ waits (bytes "a/1") 3
    ∷ enqueues (bytes "a/1") 2
    ∷ finishes 0 true
    ∷ releasing (bytes "a/1")
    ∷ adds (bytes "a/1") (writes 3)
    ∷ afters (bytes "a/1") 4
    ∷ finishes 0 false
    ∷ []

run_saves-fifo_example :
    let q : SaveQueue ℕ = run_saves new_save_queue some_saves in
    (all_done (bytes "a/1") new_save_queue some_saves
        ++ (running (bytes "a/1") q.runs ++ q.pending (bytes "a/1"))
      ≡ all_added (bytes "a/1") some_saves)
    × (live (bytes "a/1") q.runs ≡ (if q.busy (bytes "a/1") then 1 else 0))
    × (q.busy (bytes "a/1") ≡ false → q.pending (bytes "a/1") ≡ [])
run_saves-fifo_example = run_saves-fifo (bytes "a/1") some_saves
