-- ===== src/Client/Outbox/Owed.antt =====
-- client/outbox/outbox.go: the outbox as an ordered dictionary of what is owed.
use gridwell.Base.{
  ◌≡◌, sym, ◌∙◌, List, insert, delete, has_key, Bool-cases, in_order, IsOrdered, insert-IsOrdered,
  delete-IsOrdered, in_order-insert, in_order-delete, delete_absent, inl, inr,
}
use gridwell.Client.Outbox.{Key, key-Eq, Outbox, park, ack}

module _ {ℓ} {T : Type ℓ} where
  -- The order holds each parked key once, and the map's keys are those of the order.
  abbrev pub IsDrainable : Outbox T → Type 0
  IsDrainable o = IsOrdered o.m o.order

  -- What is owed, in the order it drains.
  abbrev pub owed : Outbox T → List (Key × T)
  owed o = in_order o.m o.order

  pub park-IsDrainable : (o : Outbox T) (k : Key) (t : T) → IsDrainable o → IsDrainable (park o k t)
  unfolding park
  park-IsDrainable o k t v = insert-IsOrdered k t o.m o.order v

  pub ack-IsDrainable : (o : Outbox T) (k : Key) → IsDrainable o → IsDrainable (ack o k)
  unfolding ack
  ack-IsDrainable o k v = elim (Bool-cases (has_key k o.m)) [
    | inl e ↦ rw e (delete-IsOrdered k o.m o.order v)
    | inr e ↦ rw e v
  ]

  -- Under the invariant a park writes the key's entry where it stands or after every other, and an ack
  -- takes it out: what is owed is an ordered dictionary.
  pub owed-park :
      (o : Outbox T) (k : Key) (t : T) → IsDrainable o → owed (park o k t) ≡ insert k t (owed o)
  unfolding park
  owed-park o k t v = in_order-insert k t o.m o.order v

  pub owed-ack : (o : Outbox T) (k : Key) → IsDrainable o → owed (ack o k) ≡ delete k (owed o)
  unfolding ack
  owed-ack o k v = elim (Bool-cases (has_key k o.m)) [
    | inl e ↦ rw e (in_order-delete k o.m o.order)
    | inr e ↦ rw e (sym (delete_absent k o.m o.order (sym (v.same_keys k) ∙ e)))
  ]
