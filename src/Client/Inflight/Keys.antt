-- ===== src/Client/Inflight/Keys.antt =====
-- client/inflight/latch.go: a latch is a set of keys. A Go map from keys to true is the list of its
-- keys; what is read out of it is sorted.
use gridwell.Base.{
  sorted, ◌≡◌, refl, ap, ◌∙◌, sym, Bool, false, not, ◌&&◌, ◌||◌, List, [], ◌∷◌, if◌then◌else◌,
  Bytes, bytes_eq, bytes_eq→eq, contains, bytes-Eq, arith, Bool-cases, inl, inr,
}

abbrev pub Latch : Type 0
Latch = List Bytes

pub has : Latch → Bytes → Bool
has l key = contains key l

pub set : Latch → Bytes → Latch
set l key = if contains key l then l else key ∷ l

pub clear_if : Latch → (Bytes → Bool) → Latch
clear_if [] match = []
clear_if (k ∷ l) match = let rest = clear_if l match in if match k then rest else k ∷ rest

pub clear : Latch → Bytes → Latch
unfolding clear_if
clear l key = clear_if l (λ k. bytes_eq k key)

-- latch.keys
pub keys : Latch → List Bytes
keys l = sorted l

-- A latch after a set: the key is in it, and every other key is as it was.
pub has-set : (l : Latch) (key k : Bytes) → has (set l key) k ≡ (bytes_eq key k || has l k)
unfolding has set contains
has-set l key k = elim (Bool-cases (contains key l)) [
  | inr e ↦ rw e
  | inl e ↦ elim (Bool-cases (bytes_eq key k)) [
    | inl q ↦ rw (e, q) (ap (λ (j : Bytes). contains j l) (sym (bytes_eq→eq key k q)) ∙ e)
    | inr q ↦ rw (e, q)
  ]
]

pub has-clear_if :
    (l : Latch) (match : Bytes → Bool) (k : Bytes)
    → has (clear_if l match) k ≡ (not (match k) && has l k)
unfolding has clear_if contains
has-clear_if [] match k = ground arith
has-clear_if (j ∷ l) match k = elim (Bool-cases (bytes_eq j k)) [
  | inl q ↦ let same = bytes_eq→eq j k q in ground (arith, ap match same, has-clear_if l match k)
  | inr q ↦ ground (arith, has-clear_if l match k)
]

pub has-clear :
    (l : Latch) (key k : Bytes) → has (clear l key) k ≡ (not (bytes_eq k key) && has l k)
unfolding clear
has-clear l key k = has-clear_if l (λ j. bytes_eq j key) k

pub has-empty : (k : Bytes) → has [] k ≡ false
unfolding has contains
has-empty k = refl
