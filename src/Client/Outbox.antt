-- ===== src/Client/Outbox.antt =====
-- client/outbox/outbox.go: the writes that the server has not acknowledged. A thunk is an element of
-- T, since the outbox only keeps it; the mutex makes each operation one step.
pub mod Owed
pub mod Ledger
pub mod Saves
use gridwell.Base.{
  ℕ, ◌≡◌, refl, ap, Bool, true, false, ◌&&◌, List, [], ◌∷◌, ◌++◌, Option, none, some, if◌then◌else◌,
  Bytes, bytes_eq, bytes_eq_iff, Eq, arith, lookup, insert, delete, has_key, length, is_some, bytes,
  map, ◌↔◌, in_order, compact_out,
}
use gridwell.Client.Sync.{Outcome, unheard}

pub record Key : Type 0 where
  pub op : Bytes
  pub id : Bytes

abbrev pub key_eq : Key → Key → Bool
key_eq a b = bytes_eq a.op b.op && bytes_eq a.id b.id

pub key_eq_iff : (a b : Key) → (key_eq a b ≡ true) ↔ (a ≡ b)
key_eq_iff a b = (
  λ h.
      let p = (bytes_eq_iff a.op b.op).0 (ground arith) in
      let q = (bytes_eq_iff a.id b.id).0 (ground arith) in λ i. record { op = p i; id = q i },
  λ e.
      let p = (bytes_eq_iff a.op b.op).1 (ap Key.op e) in
      let q = (bytes_eq_iff a.id b.id).1 (ap Key.id e) in ground arith,
)

instance abbrev pub key-Eq : Eq Key
key-Eq = record { beq = key_eq; beq_iff = key_eq_iff }

pub op_content : Bytes
op_content = bytes "Content"

pub record Outbox {ℓ} (T : Type ℓ) : Type ℓ where
  pub m : List (Key × T)
  pub order : List Key

module _ {ℓ} {T : Type ℓ} where
  abbrev pub new_outbox : Outbox T
  new_outbox = record { m = []; order = [] }

  pub park : Outbox T → Key → T → Outbox T
  park o k retry = record {
    m = insert k retry o.m;
    order = if has_key k o.m then o.order else o.order ++ k ∷ [];
  }

  pub ack : Outbox T → Key → Outbox T
  ack o k = if has_key k o.m then record { m = delete k o.m; order = compact_out o.order k } else o

  -- Record, where a nil thunk is none.
  pub record_outcome : Outbox T → Outcome → Key → Option T → Outbox T
  record_outcome o out k none = ack o k
  record_outcome o out k (some retry) = if unheard out then park o k retry else ack o k

  -- Send before its call.
  abbrev pub park_given : Outbox T → Key → Option T → Outbox T
  park_given o k none = o
  park_given o k (some retry) = park o k retry

  -- Send: what the call does to the outbox while it is out is the call's.
  pub send : Outbox T → Key → Option T → (Outbox T → Outbox T × Outcome) → Outbox T × Outcome
  send o k retry call =
      let (o', out) = call (park_given o k retry) in (record_outcome o' out k retry, out)

  pub record_content : Outbox T → Bytes → Bool → T → Outbox T
  record_content o tile_id dirty retry =
      let k : Key = record { op = op_content; id = tile_id } in
      if dirty then park o k retry else ack o k

  pub sync_content : Outbox T → List Bytes → (Bytes → T) → Outbox T
  sync_content o [] retry = o
  sync_content o (id ∷ dirty) retry = sync_content (record_content o id true (retry id)) dirty retry

  pub drain : Outbox T → Outbox T × List T
  drain o = (new_outbox, map (λ (e : Key × T). e.1) (in_order o.m o.order))

  pub has_owed : Outbox T → Key → Bool
  has_owed o k = has_key k o.m

  unfoldable outbox_len : Outbox T → ℕ
  outbox_len o = length o.m

  unfoldable outbox_keys : Outbox T → List Key
  outbox_keys o = map (λ (e : Key × T). e.0) (in_order o.m o.order)
