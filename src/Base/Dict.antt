-- ===== src/Base/Dict.antt =====
-- A Go map as an association list that holds each key once: a write replaces in place or appends.

use mathlib.Core.Path.{◌≡◌, refl, ap, sym, ◌∙◌}
use mathlib.Core.Logic.{◌↔◌, inl, inr}
use mathlib.Core.Bool.{Bool, true, false, ◌&&◌, ◌||◌, not}
use mathlib.Core.List.{List, [], ◌∷◌}
use mathlib.Core.Option.{Option, none, some}
use native.Mathlib.Omega.{arith}
use gridwell.Base.Tests.{if◌then◌else◌, Bool-cases, is_some}
use gridwell.Base.Text.{Bytes, bytes_eq, bytes_eq_iff}

pub record Eq {ℓ} (A : Type ℓ) : Type ℓ where
  pub beq : A → A → Bool
  pub beq_iff : (a b : A) → (beq a b ≡ true) ↔ (a ≡ b)

instance abbrev pub bytes-Eq : Eq Bytes
bytes-Eq = record { beq = bytes_eq; beq_iff = bytes_eq_iff }

module _ {ℓ} {K : Type ℓ} ⦃e : Eq K⦄ where
  pub beq_refl : (k : K) → e.beq k k ≡ true
  beq_refl k = (e.beq_iff k k).1 refl

  pub beq_comm : (j k : K) → e.beq j k ≡ e.beq k j
  beq_comm j k = elim (Bool-cases (e.beq j k)) [
    | inl h ↦ h ∙ sym ((e.beq_iff k j).1 (sym ((e.beq_iff j k).0 h)))
    | inr h ↦ elim (Bool-cases (e.beq k j)) [
      | inl g ↦ (e.beq_iff j k).1 (sym ((e.beq_iff k j).0 g)) ∙ sym g
      | inr g ↦ h ∙ sym g
    ]
  ]

  -- slices.Contains
  unfoldable pub contains : K → List K → Bool
  contains k [] = false
  contains k (j ∷ js) = e.beq j k || contains k js

pub bytes_eq_comm : (s t : Bytes) → bytes_eq s t ≡ bytes_eq t s
bytes_eq_comm s t = beq_comm s t

module _ {ℓ κ} {K : Type ℓ} {V : Type κ} ⦃e : Eq K⦄ where
  unfoldable pub lookup : K → List (K × V) → Option V
  lookup k [] = none
  lookup k ((j, v) ∷ m) = if e.beq j k then some v else lookup k m

  unfoldable pub insert : K → V → List (K × V) → List (K × V)
  insert k v [] = (k, v) ∷ []
  insert k v ((j, w) ∷ m) = if e.beq j k then (k, v) ∷ m else (j, w) ∷ insert k v m

  unfoldable pub delete : K → List (K × V) → List (K × V)
  delete k [] = []
  delete k ((j, w) ∷ m) = let rest = delete k m in if e.beq j k then rest else (j, w) ∷ rest

  abbrev pub has_key : K → List (K × V) → Bool
  has_key k m = is_some (lookup k m)

  pub lookup-insert :
      (k j : K) (v : V) (m : List (K × V))
      → lookup j (insert k v m) ≡ (if e.beq k j then some v else lookup j m)
  unfolding lookup insert
  lookup-insert k j v [] = refl
  lookup-insert k j v ((i, w) ∷ m) =
      ground (arith, e.beq_iff k j, e.beq_iff i k, e.beq_iff i j, lookup-insert k j v m)

  pub lookup-delete :
      (k j : K) (m : List (K × V))
      → lookup j (delete k m) ≡ (if e.beq k j then none else lookup j m)
  unfolding lookup delete
  lookup-delete k j [] = ground arith
  lookup-delete k j ((i, w) ∷ m) =
      ground (arith, e.beq_iff k j, e.beq_iff i k, e.beq_iff i j, lookup-delete k j m)

  pub has_key-insert :
      (k j : K) (v : V) (m : List (K × V)) → has_key j (insert k v m) ≡ (e.beq k j || has_key j m)
  has_key-insert k j v m = ap is_some (lookup-insert k j v m) ∙ of_test (e.beq k j)
    where
      of_test : (b : Bool) → is_some (if b then some v else lookup j m) ≡ (b || has_key j m)
      of_test true = refl
      of_test false = refl

  pub has_key-delete :
      (k j : K) (m : List (K × V)) → has_key j (delete k m) ≡ (not (e.beq k j) && has_key j m)
  has_key-delete k j m = ap is_some (lookup-delete k j m) ∙ of_test (e.beq k j)
    where
      of_test : (b : Bool) → is_some (if b then none else lookup j m) ≡ (not b && has_key j m)
      of_test true = refl
      of_test false = refl
