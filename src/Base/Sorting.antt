-- ===== src/Base/Sorting.antt =====
-- slices.Sort, slices.Compact and slices.DeleteFunc over strings.

use mathlib.Core.Path.{◌≡◌, refl, ap, sym, ◌∙◌}
use mathlib.Core.Logic.{inl, inr}
use mathlib.Core.Bool.{Bool, true, false, ◌&&◌, ◌||◌, not, false≢true}
use mathlib.Core.List.{List, [], ◌∷◌}
use native.Mathlib.Omega.{arith}
use gridwell.Base.Tests.{if◌then◌else◌, Bool-cases, ltb, ◌==◌}
use gridwell.Base.Text.{Bytes, bytes_eq, bytes_eq→eq}
use gridwell.Base.Dict.{contains, bytes-Eq}

-- slices.Sort over strings: the order of bytes.
unfoldable pub bytes_le : Bytes → Bytes → Bool
bytes_le [] t = true
bytes_le (x ∷ s) [] = false
bytes_le (x ∷ s) (y ∷ t) = let rest = bytes_le s t in if x == y then rest else ltb x y

unfoldable pub sort_insert : Bytes → List Bytes → List Bytes
unfolding bytes_le
sort_insert k [] = k ∷ []
sort_insert k (j ∷ js) =
    let rest = sort_insert k js in if bytes_le k j then k ∷ j ∷ js else j ∷ rest

unfoldable pub sorted : List Bytes → List Bytes
unfolding sort_insert
sorted [] = []
sorted (k ∷ ks) = sort_insert k (sorted ks)

-- slices.Compact: of neighbours that are equal the first stays.
unfoldable pub compact : List Bytes → List Bytes
compact [] = []
compact (k ∷ []) = k ∷ []
compact (k ∷ j ∷ ks) = let rest = compact (j ∷ ks) in if bytes_eq k j then rest else k ∷ rest

-- slices.DeleteFunc
pub delete_func : (Bytes → Bool) → List Bytes → List Bytes
delete_func del [] = []
delete_func del (k ∷ ks) = let rest = delete_func del ks in if del k then rest else k ∷ rest

bytes_le-total : (s t : Bytes) → bytes_le s t ≡ false → bytes_le t s ≡ true
unfolding bytes_le
bytes_le-total [] t h = absurd (false≢true (sym h))
bytes_le-total (x ∷ s) [] h = refl
bytes_le-total (x ∷ s) (y ∷ t) h = ground (arith, bytes_le-total s t)

-- Neighbours in order.
abbrev pub in_order_from : Bytes → List Bytes → Bool
in_order_from k [] = true
in_order_from k (j ∷ ks) = bytes_le k j && in_order_from j ks

abbrev pub is_sorted : List Bytes → Bool
is_sorted [] = true
is_sorted (k ∷ ks) = in_order_from k ks

-- Neighbours in order and not alike.
abbrev pub ascending_from : Bytes → List Bytes → Bool
ascending_from k [] = true
ascending_from k (j ∷ ks) = not (bytes_eq k j) && bytes_le k j && ascending_from j ks

abbrev pub is_ascending : List Bytes → Bool
is_ascending [] = true
is_ascending (k ∷ ks) = ascending_from k ks

-- An insertion under a lower bound of the list and of the key.
in_order_from-sort_insert :
    (low k : Bytes) (ks : List Bytes)
    → bytes_le low k ≡ true
    → in_order_from low ks ≡ true
    → in_order_from low (sort_insert k ks) ≡ true
unfolding sort_insert
in_order_from-sort_insert low k [] h g = ground arith
in_order_from-sort_insert low k (j ∷ ks) h g = elim (Bool-cases (bytes_le k j)) [
  | inl e ↦ rw e (ground arith)
  | inr e ↦ rw e (ground (arith, in_order_from-sort_insert j k ks (bytes_le-total k j e)))
]

sort_insert-is_sorted :
    (k : Bytes) (ks : List Bytes) → is_sorted ks ≡ true → is_sorted (sort_insert k ks) ≡ true
unfolding sort_insert
sort_insert-is_sorted k [] h = refl
sort_insert-is_sorted k (j ∷ ks) h = elim (Bool-cases (bytes_le k j)) [
  | inl e ↦ rw e (ground arith)
  | inr e ↦ rw e (in_order_from-sort_insert j k ks (bytes_le-total k j e) h)
]

pub sorted-is_sorted : (ks : List Bytes) → is_sorted (sorted ks) ≡ true
unfolding sorted
sorted-is_sorted [] = refl
sorted-is_sorted (k ∷ ks) = sort_insert-is_sorted k (sorted ks) (sorted-is_sorted ks)

contains-sort_insert :
    (i k : Bytes) (ks : List Bytes)
    → contains i (sort_insert k ks) ≡ (bytes_eq k i || contains i ks)
unfolding sort_insert contains
contains-sort_insert i k [] = refl
contains-sort_insert i k (j ∷ ks) = elim (Bool-cases (bytes_le k j)) [
  | inl e ↦ rw e refl
  | inr e ↦ rw e (ground (arith, contains-sort_insert i k ks))
]

pub contains-sorted : (i : Bytes) (ks : List Bytes) → contains i (sorted ks) ≡ contains i ks
unfolding sorted contains
contains-sorted i [] = refl
contains-sorted i (k ∷ ks) =
    contains-sort_insert i k (sorted ks)
    ∙ ap (λ (b : Bool). bytes_eq k i || b) (contains-sorted i ks)

pub contains-compact : (i : Bytes) (ks : List Bytes) → contains i (compact ks) ≡ contains i ks
unfolding compact contains
contains-compact i [] = refl
contains-compact i (k ∷ []) = refl
contains-compact i (k ∷ j ∷ ks) = elim (Bool-cases (bytes_eq k j)) [
  | inl e ↦ rw (e, bytes_eq→eq k j e) (ground (arith, contains-compact i (j ∷ ks)))
  | inr e ↦ rw e (ap (λ (b : Bool). bytes_eq k i || b) (contains-compact i (j ∷ ks)))
]

-- A compacted list in order starts as it did and ascends.
compact_from :
    (k : Bytes) (ks : List Bytes)
    → in_order_from k ks ≡ true
    → (rest : List Bytes) × (compact (k ∷ ks) ≡ k ∷ rest) × (ascending_from k rest ≡ true)
unfolding compact
compact_from k [] h = ([], refl, refl)
compact_from k (j ∷ ks) h =
    let (rest, e, a) = compact_from j ks (ground arith) in
    elim (Bool-cases (bytes_eq k j)) [
      | inl q ↦
          let same = sym (bytes_eq→eq k j q) in
          (
            rest,
            rw q (e ∙ ap (λ (i : Bytes). i ∷ rest) same),
            ap (λ (i : Bytes). ascending_from i rest) (sym same) ∙ a,
          )
      | inr q ↦ (j ∷ rest, rw q (ap (λ (is : List Bytes). k ∷ is) e), ground arith)
    ]

pub compact-is_ascending :
    (ks : List Bytes) → is_sorted ks ≡ true → is_ascending (compact ks) ≡ true
compact-is_ascending [] h = unfold compact in refl
compact-is_ascending (k ∷ ks) h = let (rest, e, a) = compact_from k ks h in ap is_ascending e ∙ a

pub contains-delete_func :
    (i : Bytes) (del : Bytes → Bool) (ks : List Bytes)
    → contains i (delete_func del ks) ≡ (not (del i) && contains i ks)
unfolding delete_func contains
contains-delete_func i del [] = ground arith
contains-delete_func i del (k ∷ ks) = elim (Bool-cases (bytes_eq k i)) [
  | inl e ↦ ground (arith, ap del (bytes_eq→eq k i e), contains-delete_func i del ks)
  | inr e ↦ ground (arith, contains-delete_func i del ks)
]
