-- ===== src/Rpc/Address.antt =====
-- api/rpc/address.go: MatchAddress, a pattern whose "*" matches any run of bytes.
pub mod Glob
use gridwell.Base.{
  ℕ, zero, suc, ◌≡◌, refl, Bool, true, false, List, [], ◌∷◌, ◌++◌, Option, none, some,
  if◌then◌else◌, Bytes, bytes, cut_prefix, split, bytes_eq, is_some,
}

-- '*'
abbrev pub star : ℕ
star = b'*'

-- The first answer, if there is one.
abbrev pub first_some : Option Bytes → Option Bytes → Option Bytes
first_some none later = later
first_some (some r) later = some r

-- strings.Index with the slice past the match: what follows the first occurrence of p.
pub cut_after : Bytes → Bytes → Option Bytes
unfolding cut_prefix
cut_after p [] = cut_prefix p []
cut_after p (x ∷ xs) = let later = cut_after p xs in first_some (cut_prefix p (x ∷ xs)) later

-- strings.HasSuffix
pub has_suffix : Bytes → Bytes → Bool
unfolding bytes_eq
has_suffix p [] = bytes_eq p []
has_suffix p (x ∷ xs) =
    let shorter = has_suffix p xs in if bytes_eq p (x ∷ xs) then true else shorter

-- The loop over the parts between the first and the last, and then the last as a suffix.
pub match_parts : List Bytes → Bytes → Bool
unfolding cut_after has_suffix
match_parts [] rest = false
match_parts (last ∷ []) rest = has_suffix last rest
match_parts (p ∷ q ∷ parts) rest = elim (cut_after p rest) [
  | none ↦ false
  | some more ↦ match_parts (q ∷ parts) more
]

-- The parts of a split; the one part of a pattern with no star is the whole address.
pub match_split : List Bytes → Bytes → Bool
unfolding match_parts
match_split [] address = false
match_split (whole ∷ []) address = bytes_eq whole address
match_split (first ∷ p ∷ parts) address = elim (cut_prefix first address) [
  | none ↦ false
  | some rest ↦ match_parts (p ∷ parts) rest
]

unfoldable pub match_address : Bytes → Bytes → Bool
unfolding split match_split
match_address pattern address = match_split (split star pattern) address
