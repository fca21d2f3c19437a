-- ===== src/Tests/Hub.antt =====
-- The event hub of internal/eventhub on a concrete run.
use gridwell.Base.{
  ℕ, ◌≡◌, refl, Bool, true, List, [], ◌∷◌, Bytes, bytes, bytes_eq, map, arith, lookup, insert,
  delete,
}
use gridwell.Server.Hub.{
  Subscriber, enqueue_event, enqueue_locked, enqueue_keyed, pump_step, receive, new_hub, subscribe,
  publish, cancel,
}
use gridwell.Server.Hub.Logged.{
  SubscriberOp, calls, acts, pumps, receives, run_logged, fresh_log, last_of, IsFaithful,
}
use gridwell.Server.Hub.Queue.{run_logged-IsFaithful}
use gridwell.Server.Hub.Delivery.{rounds, rounds-delivered}

-- Two entities, the first of them touched twice before the pump takes it, and an event without a key; the
-- enqueues run into each other.
abbrev some_events : List (SubscriberOp ℕ)
some_events =
    calls (bytes "t/1") 1
    ∷ calls (bytes "g/2") 2
    ∷ acts 0
    ∷ acts 1
    ∷ calls (bytes "t/1") 3
    ∷ acts 2
    ∷ acts 0
    ∷ pumps true
    ∷ calls [] 4
    ∷ acts 3
    ∷ acts 2
    ∷ pumps true
    ∷ acts 3
    ∷ acts 1
    ∷ receives
    ∷ []

run_logged-IsFaithful_example : IsFaithful (run_logged 0 fresh_log some_events)
run_logged-IsFaithful_example = run_logged-IsFaithful 0 some_events

first_got : (run_logged 0 fresh_log some_events).got ≡ 3 ∷ []
unfolding enqueue_locked enqueue_keyed pump_step receive lookup insert delete bytes_eq
first_got = refl

rounds-delivered_example :
    let e = run_logged 0 (run_logged 0 fresh_log some_events) (rounds 20) in
    (map (λ (x : Bytes × ℕ). x.1) e.taken ≡ e.got)
    × ((k : Bytes) → last_of k e.taken ≡ last_of k (run_logged 0 fresh_log some_events).put)
unfolding enqueue_locked enqueue_keyed pump_step receive lookup insert delete bytes_eq
rounds-delivered_example = rounds-delivered 0 some_events 20 refl refl (omega arith)

-- The first subscriber has cancelled before the second event.
hub_fan_out :
    let h = publish (subscribe (subscribe (new_hub (λ (n : ℕ). bytes "t/1"))).0).0 7 in
    let c = publish (cancel h 0) 8 in
    map (λ (s : Bool × Subscriber ℕ). s.1.pending) c.made
    ≡ ((bytes "t/1", 7) ∷ []) ∷ ((bytes "t/1", 8) ∷ []) ∷ []
unfolding new_hub subscribe publish cancel enqueue_event enqueue_locked enqueue_keyed lookup insert
    bytes_eq
hub_fan_out = refl
