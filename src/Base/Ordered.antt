-- ===== src/Base/Ordered.antt =====
-- A dictionary with an order of its keys kept beside it, as an outbox and a subscriber's queue keep one.
use mathlib.Core.Path.{◌≡◌, refl, ap, sym, ◌∙◌}
use mathlib.Core.Logic.{inl, inr}
use mathlib.Core.Bool.{Bool, true, false, not, ◌&&◌, ◌||◌, false≢true}
use mathlib.Core.List.{List, [], ◌∷◌, ◌++◌}
use mathlib.Core.Option.{Option, none, some}
use native.Mathlib.Omega.{arith}
use Prim.Native.Nat.{◌≤◌}
use gridwell.Base.Lists.{length}
use gridwell.Base.Tests.{if◌then◌else◌, Bool-cases, Option-cases, is_some}
use gridwell.Base.Dict.{
  Eq, beq_refl, beq_comm, contains, lookup, insert, delete, has_key, lookup-insert, lookup-delete,
  has_key-insert, has_key-delete,
}

module _ {ℓ} {K : Type ℓ} ⦃eqk : Eq K⦄ where
  -- A key taken out of an order, as often as it stands in it.
  unfoldable pub compact_out : List K → K → List K
  compact_out [] k = []
  compact_out (o ∷ order) k =
      let rest = compact_out order k in if eqk.beq o k then rest else o ∷ rest

  abbrev pub distinct : List K → Bool
  distinct [] = true
  distinct (k ∷ ks) = not (contains k ks) && distinct ks

  pub contains-append :
      (k j : K) (ks : List K) → contains k (ks ++ j ∷ []) ≡ (contains k ks || eqk.beq j k)
  unfolding contains
  contains-append k j [] = ground arith
  contains-append k j (i ∷ ks) = ground (arith, contains-append k j ks)

  pub contains-compact_out :
      (k j : K) (ks : List K) → contains j (compact_out ks k) ≡ (not (eqk.beq k j) && contains j ks)
  unfolding contains compact_out
  contains-compact_out k j [] = ground arith
  contains-compact_out k j (i ∷ ks) =
      ground (
        arith,
        contains-compact_out k j ks,
        (eqk.beq_iff i k),
        (eqk.beq_iff k j),
        (eqk.beq_iff i j),
      )

  pub length-compact_out : (k : K) (ks : List K) → length (compact_out ks k) ≤ length ks
  unfolding compact_out
  length-compact_out k [] = omega arith
  length-compact_out k (i ∷ ks) = ground (arith, length-compact_out k ks)

  pub distinct-append :
      (k : K) (ks : List K)
      → contains k ks ≡ false
      → distinct ks ≡ true
      → distinct (ks ++ k ∷ []) ≡ true
  unfolding contains
  distinct-append k [] h d = refl
  distinct-append k (i ∷ ks) h d =
      ground (arith, distinct-append k ks, contains-append i k ks, beq_comm i k)

  pub distinct-compact_out :
      (k : K) (ks : List K) → distinct ks ≡ true → distinct (compact_out ks k) ≡ true
  unfolding compact_out
  distinct-compact_out k [] d = refl
  distinct-compact_out k (i ∷ ks) d =
      ground (arith, distinct-compact_out k ks, contains-compact_out k i ks)

  head_ne : (k i : K) (ks : List K) → contains k (i ∷ ks) ≡ false → eqk.beq k i ≡ false
  unfolding contains
  head_ne k i ks h = ground (arith, beq_comm k i)

  tail_absent : (k i : K) (ks : List K) → contains k (i ∷ ks) ≡ false → contains k ks ≡ false
  unfolding contains
  tail_absent k i ks h = ground arith

  contains_here :
      (k i : K) (ks : List K)
      → eqk.beq i k ≡ false
      → contains k (i ∷ ks) ≡ true
      → contains k ks ≡ true
  unfolding contains
  contains_here k i ks q h = ground arith

  pub distinct_tail : (i : K) (ks : List K) → distinct (i ∷ ks) ≡ true → distinct ks ≡ true
  distinct_tail i ks d = ground arith

  pub distinct_head : (i : K) (ks : List K) → distinct (i ∷ ks) ≡ true → contains i ks ≡ false
  distinct_head i ks d = ground arith

module _ {ℓ κ} {K : Type ℓ} {V : Type κ} ⦃eqk : Eq K⦄ where
  abbrev push_found : K → Option V → List (K × V) → List (K × V)
  push_found k none rest = rest
  push_found k (some fn) rest = (k, fn) ∷ rest

  -- The entries in the order, a key that the map lacks skipped.
  unfoldable pub in_order : List (K × V) → List K → List (K × V)
  in_order m [] = []
  in_order m (k ∷ order) = push_found k (lookup k m) (in_order m order)

  -- The order holds each key of the map once, and no other.
  pub record IsOrdered (m : List (K × V)) (ks : List K) : Type ℓ where
    pub once : distinct ks ≡ true
    pub same_keys : (k : K) → has_key k m ≡ contains k ks

  lookup-insert_ne :
      (k j : K) (t : V) (m : List (K × V))
      → eqk.beq k j ≡ false
      → lookup j (insert k t m) ≡ lookup j m
  lookup-insert_ne k j t m h = lookup-insert k j t m ∙ rw h

  lookup-insert_same : (k : K) (t : V) (m : List (K × V)) → lookup k (insert k t m) ≡ some t
  lookup-insert_same k t m = lookup-insert k k t m ∙ rw (beq_refl k)

  in_order-insert_absent :
      (k : K) (t : V) (m : List (K × V)) (ks : List K)
      → contains k ks ≡ false
      → in_order (insert k t m) ks ≡ in_order m ks
  unfolding in_order
  in_order-insert_absent k t m [] h = refl
  in_order-insert_absent k t m (i ∷ ks) h =
      ap (λ (v : Option V). push_found i v (in_order (insert k t m) ks))
        (lookup-insert_ne k i t m (head_ne k i ks h))
      ∙ ap (push_found i (lookup i m)) (in_order-insert_absent k t m ks (tail_absent k i ks h))

  in_order-append :
      (m : List (K × V)) (ks : List K) (k : K) (t : V)
      → lookup k m ≡ some t
      → in_order m (ks ++ k ∷ []) ≡ in_order m ks ++ (k, t) ∷ []
  unfolding in_order
  in_order-append m [] k t e = ap (λ (v : Option V). push_found k v []) e
  in_order-append m (i ∷ ks) k t e =
      ap (push_found i (lookup i m)) (in_order-append m ks k t e) ∙ past (lookup i m)
    where
      past :
          (v : Option V)
          → push_found i v (in_order m ks ++ (k, t) ∷ [])
            ≡ push_found i v (in_order m ks) ++ (k, t) ∷ []
      past none = refl
      past (some w) = refl

  -- An entry written into what is owed under a key that stands at the head.
  insert_head :
      (k i : K) (t w : V) (rest : List (K × V))
      → eqk.beq i k ≡ true
      → insert k t ((i, w) ∷ rest) ≡ (k, t) ∷ rest
  unfolding insert
  insert_head k i t w rest e = rw e

  insert_past :
      (k i : K) (t : V) (v : Option V) (rest : List (K × V))
      → eqk.beq i k ≡ false
      → insert k t (push_found i v rest) ≡ push_found i v (insert k t rest)
  unfolding insert
  insert_past k i t none rest e = refl
  insert_past k i t (some w) rest e = rw e

  insert_absent :
      (k : K) (t : V) (m : List (K × V)) (ks : List K)
      → contains k ks ≡ false
      → insert k t (in_order m ks) ≡ in_order m ks ++ (k, t) ∷ []
  unfolding in_order insert
  insert_absent k t m [] h = refl
  insert_absent k t m (i ∷ ks) h =
      insert_past k i t (lookup i m) (in_order m ks) (beq_comm i k ∙ head_ne k i ks h)
      ∙ ap (push_found i (lookup i m)) (insert_absent k t m ks (tail_absent k i ks h))
      ∙ past (lookup i m)
    where
      past :
          (v : Option V)
          → push_found i v (in_order m ks ++ (k, t) ∷ [])
            ≡ push_found i v (in_order m ks) ++ (k, t) ∷ []
      past none = refl
      past (some w) = refl

  in_order-insert_present :
      (k : K) (t w : V) (m : List (K × V)) (ks : List K)
      → lookup k m ≡ some w
      → distinct ks ≡ true
      → contains k ks ≡ true
      → in_order (insert k t m) ks ≡ insert k t (in_order m ks)
  unfolding in_order
  in_order-insert_present k t w m [] e d h = absurd (unfold contains in false≢true h)
  in_order-insert_present k t w m (i ∷ ks) e d h = elim (Bool-cases (eqk.beq i k)) [
    | inl q ↦
        let same : i ≡ k = (eqk.beq_iff i k).0 q in
        let gone = ap (λ (j : K). contains j ks) (sym same) ∙ distinct_head i ks d in
        ap (λ (j : K). push_found j (lookup j (insert k t m)) (in_order (insert k t m) ks)) same
        ∙ ap (λ (v : Option V). push_found k v (in_order (insert k t m) ks))
            (lookup-insert_same k t m)
        ∙ ap (λ (rest : List (K × V)). (k, t) ∷ rest) (in_order-insert_absent k t m ks gone)
        ∙ sym (insert_head k k t w (in_order m ks) (beq_refl k))
        ∙ ap (λ (v : Option V). insert k t (push_found k v (in_order m ks))) (sym e)
        ∙ ap (λ (j : K). insert k t (push_found j (lookup j m) (in_order m ks))) (sym same)
    | inr q ↦
        ap (λ (v : Option V). push_found i v (in_order (insert k t m) ks))
          (lookup-insert_ne k i t m (beq_comm k i ∙ q))
        ∙ ap (push_found i (lookup i m))
            (in_order-insert_present k t w m ks e (distinct_tail i ks d) (contains_here k i ks q h))
        ∙ sym (insert_past k i t (lookup i m) (in_order m ks) q)
  ]

  pub in_order-delete :
      (k : K) (m : List (K × V)) (ks : List K)
      → in_order (delete k m) (compact_out ks k) ≡ delete k (in_order m ks)
  unfolding in_order compact_out delete
  in_order-delete k m [] = refl
  in_order-delete k m (i ∷ ks) = elim (Bool-cases (eqk.beq i k)) [
    | inl q ↦ rw q (in_order-delete k m ks ∙ sym (delete_here (lookup i m) q))
    | inr q ↦ rw q (
        ap (λ (v : Option V). push_found i v (in_order (delete k m) (compact_out ks k)))
          (lookup-delete k i m ∙ rw (beq_comm k i ∙ q))
        ∙ ap (push_found i (lookup i m)) (in_order-delete k m ks)
        ∙ sym (delete_past (lookup i m) q))
  ]
    where
      delete_here :
          (v : Option V)
          → eqk.beq i k ≡ true
          → delete k (push_found i v (in_order m ks)) ≡ delete k (in_order m ks)
      delete_here none q = refl
      delete_here (some w) q = rw q

      delete_past :
          (v : Option V)
          → eqk.beq i k ≡ false
          → delete k (push_found i v (in_order m ks)) ≡ push_found i v (delete k (in_order m ks))
      delete_past none q = refl
      delete_past (some w) q = rw q

  abbrev first_touch : K → List (K × V) → List K → List K
  first_touch k m ks = if has_key k m then ks else ks ++ k ∷ []

  pub insert-IsOrdered :
      (k : K) (t : V) (m : List (K × V)) (ks : List K)
      → IsOrdered m ks
      → IsOrdered (insert k t m) (first_touch k m ks)
  insert-IsOrdered k t m ks v = elim (Bool-cases (has_key k m)) [
    | inl e ↦ record {
      once = rw e v.once;
      same_keys = λ j.
          ground (arith, has_key-insert k j t m, v.same_keys j, v.same_keys k, eqk.beq_iff k j);
    }
    | inr e ↦ record {
      once = rw e (distinct-append k ks (sym (v.same_keys k) ∙ e) v.once);
      same_keys =
          λ j. ground (arith, has_key-insert k j t m, v.same_keys j, contains-append j k ks);
    }
  ]

  pub delete-IsOrdered :
      (k : K) (m : List (K × V)) (ks : List K)
      → IsOrdered m ks
      → IsOrdered (delete k m) (compact_out ks k)
  delete-IsOrdered k m ks v = record {
    once = distinct-compact_out k ks v.once;
    same_keys =
        λ j. ground (arith, has_key-delete k j m, contains-compact_out k j ks, v.same_keys j);
  }

  -- A write puts the key's entry where it stands or after every other.
  pub in_order-insert :
      (k : K) (t : V) (m : List (K × V)) (ks : List K)
      → IsOrdered m ks
      → in_order (insert k t m) (first_touch k m ks) ≡ insert k t (in_order m ks)
  in_order-insert k t m ks v = elim (Option-cases (lookup k m)) [
    | inr (w, e) ↦
        rw e (in_order-insert_present k t w m ks e v.once (sym (v.same_keys k) ∙ ap is_some e))
    | inl e ↦
        let gone = sym (v.same_keys k) ∙ ap is_some e in
        rw e (
          in_order-append (insert k t m) ks k t (lookup-insert_same k t m)
          ∙ ap (λ (rest : List (K × V)). rest ++ (k, t) ∷ []) (in_order-insert_absent k t m ks gone)
          ∙ sym (insert_absent k t m ks gone))
  ]

  -- A key that is not owed has no entry to take out.
  pub delete_absent :
      (k : K) (m : List (K × V)) (ks : List K)
      → contains k ks ≡ false
      → delete k (in_order m ks) ≡ in_order m ks
  unfolding in_order delete
  delete_absent k m [] h = refl
  delete_absent k m (i ∷ ks) h =
      past (lookup i m) (beq_comm i k ∙ head_ne k i ks h)
        (delete_absent k m ks (tail_absent k i ks h))
    where
      past :
          (v : Option V)
          → eqk.beq i k ≡ false
          → delete k (in_order m ks) ≡ in_order m ks
          → delete k (push_found i v (in_order m ks)) ≡ push_found i v (in_order m ks)
      past none q g = g
      past (some w) q g = rw (q, g)

  delete-in_order_absent :
      (k : K) (m : List (K × V)) (ks : List K)
      → contains k ks ≡ false
      → in_order (delete k m) ks ≡ in_order m ks
  unfolding in_order
  delete-in_order_absent k m [] h = refl
  delete-in_order_absent k m (i ∷ ks) h =
      ap (λ (v : Option V). push_found i v (in_order (delete k m) ks))
        (lookup-delete k i m ∙ rw (head_ne k i ks h))
      ∙ ap (push_found i (lookup i m)) (delete-in_order_absent k m ks (tail_absent k i ks h))

  -- The first key taken out of both: its entry was the first, and the rest stays.
  pub in_order-pop :
      (k : K) (m : List (K × V)) (ks : List K)
      → IsOrdered m (k ∷ ks)
      → (v : V) × (lookup k m ≡ some v) × (in_order m (k ∷ ks) ≡ (k, v) ∷ in_order (delete k m) ks)
  unfolding in_order contains
  in_order-pop k m ks h = elim (Option-cases (lookup k m)) [
    | inl e ↦ absurd (false≢true (sym (ap is_some e) ∙ h.same_keys k ∙ rw (beq_refl k)))
    | inr (v, e) ↦ (
      v,
      e,
      ap (λ (o : Option V). push_found k o (in_order m ks)) e
          ∙ ap (λ (rest : List (K × V)). (k, v) ∷ rest)
              (sym (delete-in_order_absent k m ks (distinct_head k ks h.once))),
    )
  ]

  pub pop-IsOrdered :
      (k : K) (m : List (K × V)) (ks : List K) → IsOrdered m (k ∷ ks) → IsOrdered (delete k m) ks
  unfolding contains
  pop-IsOrdered k m ks h = record {
    once = distinct_tail k ks h.once;
    same_keys = λ j.
        ground
          (arith, has_key-delete k j m, h.same_keys j, distinct_head k ks h.once, eqk.beq_iff k j);
  }
