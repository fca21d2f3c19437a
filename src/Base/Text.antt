-- ===== src/Base/Text.antt =====
-- A Go string is its list of bytes. These are the functions of Go's package strings that the
-- modelled files call, on one-byte separators where the source passes one.
use Prim.Native.Nat.{ℕ}
use Prim.Native.Char.{code}
use Prim.Native.String.{String}
use mathlib.Core.Path.{◌≡◌, refl, sym, ap, ap₂, subst, ◌∙◌}
use mathlib.Core.Logic.{◌↔◌, inl, inr}
use mathlib.Core.Bool.{Bool, true, false, ◌&&◌, ◌||◌}
use mathlib.Core.List.{List, [], ◌∷◌, ◌++◌}
use mathlib.Core.Option.{Option, none, some}
use native.Mathlib.Omega.{arith}
use gridwell.Base.Tests.{◌==◌, if◌then◌else◌, ==_iff, ==_refl, Bool-cases, is_some}

abbrev pub Bytes : Type 0
Bytes = List ℕ

-- A literal's bytes; the literals of the source are ASCII.
abbrev pub bytes : String → Bytes
bytes String.[] = []
bytes (String.◌∷◌ c s) = code c ∷ bytes s

-- s == ""
abbrev pub is_empty {ℓ} : {A : Type ℓ} → List A → Bool
is_empty [] = true
is_empty (x ∷ xs) = false

-- s == t
unfoldable pub bytes_eq : Bytes → Bytes → Bool
bytes_eq [] [] = true
bytes_eq [] (y ∷ ys) = false
bytes_eq (x ∷ xs) [] = false
bytes_eq (x ∷ xs) (y ∷ ys) = (x == y) && bytes_eq xs ys

pub bytes_eq_refl : (s : Bytes) → bytes_eq s s ≡ true
unfolding bytes_eq
bytes_eq_refl [] = refl
bytes_eq_refl (x ∷ xs) = ground (arith, bytes_eq_refl xs)

pub bytes_eq→eq : (s t : Bytes) → bytes_eq s t ≡ true → s ≡ t
unfolding bytes_eq
bytes_eq→eq [] [] h = refl
bytes_eq→eq [] (y ∷ ys) h = cc
bytes_eq→eq (x ∷ xs) [] h = cc
bytes_eq→eq (x ∷ xs) (y ∷ ys) h = ground (arith, bytes_eq→eq xs ys)

pub bytes_eq_iff : (s t : Bytes) → (bytes_eq s t ≡ true) ↔ (s ≡ t)
bytes_eq_iff s t = (bytes_eq→eq s t, λ e. rw e (bytes_eq_refl t))

-- strings.Contains, for one byte.
unfoldable pub has_byte : ℕ → Bytes → Bool
has_byte c [] = false
has_byte c (x ∷ xs) = (x == c) || has_byte c xs

-- One more byte before a cut.
abbrev push_front : ℕ → Option (Bytes × Bytes) → Option (Bytes × Bytes)
push_front y none = none
push_front y (some (a, b)) = some (y ∷ a, b)

-- strings.IndexByte with the slices around the index: the bytes before the first c, and after it.
unfoldable pub cut_byte : ℕ → Bytes → Option (Bytes × Bytes)
cut_byte c [] = none
cut_byte c (x ∷ xs) =
    let rest = cut_byte c xs in if x == c then some ([], xs) else push_front x rest

-- What a cut at the first c says of the text.
abbrev CutFirst : ℕ → Bytes → Option (Bytes × Bytes) → Type 0
CutFirst c s none = has_byte c s ≡ false
CutFirst c s (some (a, b)) = (s ≡ a ++ c ∷ b) × (has_byte c a ≡ false)

CutFirst-push_front :
    (c x : ℕ) (xs : Bytes) (o : Option (Bytes × Bytes))
    → (x == c) ≡ false
    → CutFirst c xs o
    → CutFirst c (x ∷ xs) (push_front x o)
unfolding has_byte
CutFirst-push_front c x xs none ne h = ground arith
CutFirst-push_front c x xs (some (a, b)) ne h = (ap (◌∷◌ x) h.0, ground arith)

cut_byte-CutFirst : (c : ℕ) (s : Bytes) → CutFirst c s (cut_byte c s)
unfolding cut_byte has_byte
cut_byte-CutFirst c [] = refl
cut_byte-CutFirst c (x ∷ xs) = elim (Bool-cases (x == c)) [
  | inl e ↦ rw e (ap (λ (y : ℕ). y ∷ xs) ((==_iff x c).0 e), refl)
  | inr e ↦ rw e (CutFirst-push_front c x xs (cut_byte c xs) e (cut_byte-CutFirst c xs))
]

pub cut_byte-eq_some :
    (c : ℕ) (s : Bytes) {a b : Bytes}
    → cut_byte c s ≡ some (a, b)
    → (s ≡ a ++ c ∷ b) × (has_byte c a ≡ false)
cut_byte-eq_some c s h = subst (CutFirst c s) h (cut_byte-CutFirst c s)

pub cut_byte-eq_none : (c : ℕ) (s : Bytes) → cut_byte c s ≡ none → has_byte c s ≡ false
cut_byte-eq_none c s h = subst (CutFirst c s) h (cut_byte-CutFirst c s)

-- The other way round.
pub cut_byte-append :
    (c : ℕ) (a b : Bytes) → has_byte c a ≡ false → cut_byte c (a ++ c ∷ b) ≡ some (a, b)
unfolding cut_byte has_byte
cut_byte-append c [] b h = rw (==_refl c)
cut_byte-append c (x ∷ a) b h = ground (arith, cut_byte-append c a b)

pub cut_byte-of_lacks : (c : ℕ) (s : Bytes) → has_byte c s ≡ false → cut_byte c s ≡ none
unfolding cut_byte has_byte
cut_byte-of_lacks c [] h = refl
cut_byte-of_lacks c (x ∷ s) h = ground (arith, cut_byte-of_lacks c s)

has_byte-append : (c : ℕ) (a b : Bytes) → has_byte c (a ++ b) ≡ (has_byte c a || has_byte c b)
unfolding has_byte
has_byte-append c [] b = refl
has_byte-append c (x ∷ a) b = ground (arith, has_byte-append c a b)

-- strings.CutPrefix: what follows the prefix p, if the text begins with it.
unfoldable pub cut_prefix : Bytes → Bytes → Option Bytes
cut_prefix [] s = some s
cut_prefix (p ∷ ps) [] = none
cut_prefix (p ∷ ps) (x ∷ xs) = let rest = cut_prefix ps xs in if p == x then rest else none

pub cut_prefix-append : (p r : Bytes) → cut_prefix p (p ++ r) ≡ some r
unfolding cut_prefix
cut_prefix-append [] r = refl
cut_prefix-append (x ∷ p) r = rw (==_refl x) (cut_prefix-append p r)

pub cut_prefix-eq_some : (p s : Bytes) {r : Bytes} → cut_prefix p s ≡ some r → s ≡ p ++ r
unfolding cut_prefix
cut_prefix-eq_some [] s h = ground arith
cut_prefix-eq_some (x ∷ p) [] h = cc
cut_prefix-eq_some (x ∷ p) (y ∷ s) {r} h = ground (arith, cut_prefix-eq_some p s {r = r})

-- strings.HasPrefix
abbrev pub has_prefix : Bytes → Bytes → Bool
has_prefix p s = is_some (cut_prefix p s)

-- strings.Split at a one-byte separator, which always gives at least one part.
abbrev pub push_head : ℕ → List Bytes → List Bytes
push_head x [] = (x ∷ []) ∷ []
push_head x (s ∷ ss) = (x ∷ s) ∷ ss

unfoldable pub split : ℕ → Bytes → List Bytes
split c [] = [] ∷ []
split c (x ∷ xs) = let rest = split c xs in if x == c then [] ∷ rest else push_head x rest

-- strings.Join with a one-byte separator.
unfoldable pub join : ℕ → List Bytes → Bytes
join c [] = []
join c (s ∷ []) = s
join c (s ∷ t ∷ ts) = s ++ c ∷ join c (t ∷ ts)

pub split-ne_nil : (c : ℕ) (s : Bytes) → (h : Bytes) × (t : List Bytes) × (split c s ≡ h ∷ t)
unfolding split
split-ne_nil c [] = ([], [], refl)
split-ne_nil c (x ∷ xs) = elim (Bool-cases (x == c)) [
  | inl e ↦ ([], split c xs, rw e)
  | inr e ↦ let (h, t, k) = split-ne_nil c xs in (x ∷ h, t, rw e (rw k))
]

join_cons : (c : ℕ) (h : Bytes) (t : List Bytes) (x : ℕ) → join c ((x ∷ h) ∷ t) ≡ x ∷ join c (h ∷ t)
unfolding join
join_cons c h [] x = refl
join_cons c h (s ∷ ss) x = refl

pub join-split : (c : ℕ) (s : Bytes) → join c (split c s) ≡ s
unfolding split join
join-split c [] = refl
join-split c (x ∷ xs) = elim (Bool-cases (x == c)) [
  | inl e ↦
      let (h, t, k) = split-ne_nil c xs in
      rw e (
        rw k (
          ap₂ (λ (y : ℕ) (r : Bytes). y ∷ r) (sym ((==_iff x c).0 e))
            (ap (join c) (sym k) ∙ join-split c xs)))
  | inr e ↦
      let (h, t, k) = split-ne_nil c xs in
      rw e (rw k (join_cons c h t x ∙ ap (◌∷◌ x) (ap (join c) (sym k) ∙ join-split c xs)))
]
