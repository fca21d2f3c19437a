-- ===== src/Client/Outbox/Ledger.antt =====
-- client/outbox/outbox.go: any run of the outbox against the ordered dictionary it promises, and what a
-- send leaves owed.
use gridwell.Base.{
  ◌≡◌, refl, ap, sym, ◌∙◌, Bool, true, false, not, ◌&&◌, ◌||◌, List, [], ◌∷◌, Option, none, some,
  if◌then◌else◌, Bytes, beq_refl, arith, lookup, insert, delete, has_key, has_key-insert,
  has_key-delete, contains, is_some, Bool-cases, inl, inr, ◌⊎◌, map, in_order,
}
use gridwell.Client.Sync.{Outcome, unheard}
use gridwell.Client.Outbox.{
  Key, key_eq, key-Eq, op_content, Outbox, new_outbox, park, park_given, ack, record_outcome, send,
  record_content, sync_content, drain, has_owed,
}
use gridwell.Client.Outbox.Owed.{
  IsDrainable, owed, park-IsDrainable, ack-IsDrainable, owed-park, owed-ack,
}

-- What a client may do to the outbox.
pub data OutboxOp {ℓ} (T : Type ℓ) : Type ℓ where
  parks : Key → T → OutboxOp T
  acks : Key → OutboxOp T
  records : Outcome → Key → Option T → OutboxOp T
  contents : Bytes → Bool → T → OutboxOp T
  syncs : List Bytes → (Bytes → T) → OutboxOp T
  drains : OutboxOp T

abbrev content_key : Bytes → Key
content_key id = record { op = op_content; id = id }

module _ {ℓ} {T : Type ℓ} where
  -- One operation, and the thunks that it hands out.
  abbrev outbox_step : Outbox T → OutboxOp T → Outbox T × List T
  outbox_step o (parks k t) = (park o k t, [])
  outbox_step o (acks k) = (ack o k, [])
  outbox_step o (records out k t) = (record_outcome o out k t, [])
  outbox_step o (contents id dirty t) = (record_content o id dirty t, [])
  outbox_step o (syncs dirty t) = (sync_content o dirty t, [])
  outbox_step o drains = drain o

  abbrev pub run_outbox : Outbox T → List (OutboxOp T) → Outbox T × List (List T)
  run_outbox o [] = (o, [])
  run_outbox o (op ∷ ops) =
      let (o', out) = outbox_step o op in let (end, outs) = run_outbox o' ops in (end, out ∷ outs)

  -- The promise: a dictionary in the order of its first writes.
  abbrev ledger_record : List (Key × T) → Bool → Key → Option T → List (Key × T)
  ledger_record d kept k none = delete k d
  ledger_record d kept k (some t) = if kept then insert k t d else delete k d

  abbrev ledger_sync : List (Key × T) → List Bytes → (Bytes → T) → List (Key × T)
  ledger_sync d [] t = d
  ledger_sync d (id ∷ dirty) t = ledger_sync (insert (content_key id) (t id) d) dirty t

  abbrev ledger_step : List (Key × T) → OutboxOp T → List (Key × T) × List T
  ledger_step d (parks k t) = (insert k t d, [])
  ledger_step d (acks k) = (delete k d, [])
  ledger_step d (records out k t) = (ledger_record d (unheard out) k t, [])
  ledger_step d (contents id dirty t) = (ledger_record d dirty (content_key id) (some t), [])
  ledger_step d (syncs dirty t) = (ledger_sync d dirty t, [])
  ledger_step d drains = ([], map (λ (e : Key × T). e.1) d)

  abbrev pub run_ledger : List (Key × T) → List (OutboxOp T) → List (Key × T) × List (List T)
  run_ledger d [] = (d, [])
  run_ledger d (op ∷ ops) =
      let (d', out) = ledger_step d op in let (end, outs) = run_ledger d' ops in (end, out ∷ outs)

  -- The outbox holds the dictionary.
  abbrev Holds : Outbox T → List (Key × T) → Type ℓ
  Holds o d = IsDrainable o × (owed o ≡ d)

  park-Holds :
      (o : Outbox T) (d : List (Key × T)) (k : Key) (t : T)
      → Holds o d
      → Holds (park o k t) (insert k t d)
  park-Holds o d k t h = (park-IsDrainable o k t h.0, owed-park o k t h.0 ∙ ap (insert k t) h.1)

  ack-Holds :
      (o : Outbox T) (d : List (Key × T)) (k : Key) → Holds o d → Holds (ack o k) (delete k d)
  ack-Holds o d k h = (ack-IsDrainable o k h.0, owed-ack o k h.0 ∙ ap (delete k) h.1)

  fork-Holds :
      (o : Outbox T) (d : List (Key × T)) (b : Bool) (k : Key) (t : T)
      → Holds o d
      → Holds (if b then park o k t else ack o k) (if b then insert k t d else delete k d)
  fork-Holds o d true k t h = park-Holds o d k t h
  fork-Holds o d false k t h = ack-Holds o d k h

  record-Holds :
      (o : Outbox T) (d : List (Key × T)) (out : Outcome) (k : Key) (t : Option T)
      → Holds o d
      → Holds (record_outcome o out k t) (ledger_record d (unheard out) k t)
  unfolding record_outcome
  record-Holds o d out k none h = ack-Holds o d k h
  record-Holds o d out k (some t) h = fork-Holds o d (unheard out) k t h

  content-Holds :
      (o : Outbox T) (d : List (Key × T)) (id : Bytes) (b : Bool) (t : T)
      → Holds o d
      → Holds (record_content o id b t) (ledger_record d b (content_key id) (some t))
  unfolding record_content
  content-Holds o d id b t h = fork-Holds o d b (content_key id) t h

  sync-Holds :
      (o : Outbox T) (d : List (Key × T)) (dirty : List Bytes) (t : Bytes → T)
      → Holds o d
      → Holds (sync_content o dirty t) (ledger_sync d dirty t)
  unfolding sync_content
  sync-Holds o d [] t h = h
  sync-Holds o d (id ∷ dirty) t h =
      sync-Holds (record_content o id true (t id)) (insert (content_key id) (t id) d) dirty t
        (content-Holds o d id true (t id) h)

  new-Holds : Holds new_outbox []
  unfolding lookup contains in_order
  new-Holds = (record { once = refl; same_keys = λ k. refl }, refl)

  step-Holds :
      (o : Outbox T) (d : List (Key × T)) (op : OutboxOp T)
      → Holds o d
      → Holds (outbox_step o op).0 (ledger_step d op).0
        × ((outbox_step o op).1 ≡ (ledger_step d op).1)
  step-Holds o d (parks k t) h = (park-Holds o d k t h, refl)
  step-Holds o d (acks k) h = (ack-Holds o d k h, refl)
  step-Holds o d (records out k t) h = (record-Holds o d out k t h, refl)
  step-Holds o d (contents id dirty t) h = (content-Holds o d id dirty t h, refl)
  step-Holds o d (syncs dirty t) h = (sync-Holds o d dirty t h, refl)
  step-Holds o d drains h =
      (unfold drain in new-Holds, unfold drain in ap (map (λ (e : Key × T). e.1)) h.1)

  run-Holds :
      (o : Outbox T) (d : List (Key × T)) (ops : List (OutboxOp T))
      → Holds o d
      → Holds (run_outbox o ops).0 (run_ledger d ops).0
        × ((run_outbox o ops).1 ≡ (run_ledger d ops).1)
  run-Holds o d [] h = (h, refl)
  run-Holds o d (op ∷ ops) h =
      let s = step-Holds o d op h in
      let r = run-Holds (outbox_step o op).0 (ledger_step d op).0 ops s.0 in
      (r.0, λ i. s.1 i ∷ r.1 i)

  -- From an empty outbox, any parks, acks, records, content records, syncs and drains hand out the
  -- thunks, and leave owed the writes, that a dictionary kept in the order of its first writes does:
  -- a park replaces in place or appends, an ack removes, a drain takes everything in order.
  pub run_outbox-ledger :
      (ops : List (OutboxOp T))
      → (owed (run_outbox new_outbox ops).0 ≡ (run_ledger [] ops).0)
        × ((run_outbox new_outbox ops).1 ≡ (run_ledger [] ops).1)
  run_outbox-ledger ops = let h = run-Holds new_outbox [] ops new-Holds in (h.0.1, h.1)

  park-has :
      (o : Outbox T) (k j : Key) (t : T) → has_owed (park o k t) j ≡ (key_eq k j || has_owed o j)
  unfolding has_owed park
  park-has o k j t = has_key-insert k j t o.m

  ack-has : (o : Outbox T) (k j : Key) → has_owed (ack o k) j ≡ (not (key_eq k j) && has_owed o j)
  unfolding has_owed ack
  ack-has o k j = elim (Bool-cases (has_key k o.m)) [
    | inl e ↦ rw e (has_key-delete k j o.m)
    | inr e ↦ rw e (gone (Bool-cases (key_eq k j)) e)
  ]
    where
      gone :
          (key_eq k j ≡ true) ⊎ (key_eq k j ≡ false)
          → has_key k o.m ≡ false
          → has_key j o.m ≡ (not (key_eq k j) && has_key j o.m)
      gone (inl q) e = ap (λ (i : Key). has_key i o.m) (sym ((key-Eq.beq_iff k j).0 q)) ∙ e ∙ rw q
      gone (inr q) e = rw q

  record_outcome-has :
      (o : Outbox T) (out : Outcome) (k j : Key) (t : Option T)
      → has_owed (record_outcome o out k t) j
        ≡ (if key_eq k j then unheard out && is_some t else has_owed o j)
  unfolding record_outcome
  record_outcome-has o out k j none = ack-has o k j ∙ ground arith
  record_outcome-has o out k j (some t) = ground (arith, park-has o k j t, ack-has o k j)

  -- A write with something to retry it with is owed while its call is out. Once the call returns it
  -- is owed exactly when the call was not heard and there is something to retry it with, whatever
  -- the call did to the outbox meanwhile, and every other key is owed as the call left it.
  send-has :
      (o : Outbox T) (k j : Key) (retry : Option T) (call : Outbox T → Outbox T × Outcome)
      → (has_owed (park_given o k retry) k ≡ (is_some retry || has_owed o k))
        × (has_owed (send o k retry call).0 j ≡ (
            if key_eq k j
            then unheard (send o k retry call).1 && is_some retry
            else has_owed (call (park_given o k retry)).0 j))
  unfolding send
  send-has o k j retry call = (
    parked retry,
    record_outcome-has (call (park_given o k retry)).0 (call (park_given o k retry)).1 k j retry,
  )
    where
      parked : (t : Option T) → has_owed (park_given o k t) k ≡ (is_some t || has_owed o k)
      parked none = refl
      parked (some t) = park-has o k k t ∙ rw (beq_refl k)
