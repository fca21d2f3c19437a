-- ===== src/Rpc/Find.antt =====
-- api/rpc/find.go: the grammar of a find query. strings.TrimSpace is written out over UTF-8.
use gridwell.Base.{
  ℕ, zero, suc, List, [], ◌∷◌, map, Option, none, some, Bytes, bytes, cut_prefix, length,
}
use mathlib.Core.List.{reverse}

-- The encodings of unicode.IsSpace: U+0009 to U+000D, U+0020, U+0085, U+00A0, U+1680, U+2000 to
-- U+200A, U+2028, U+2029, U+202F, U+205F and U+3000.
abbrev spaces : List Bytes
spaces =
    (9 ∷ [])
    ∷ (10 ∷ [])
    ∷ (11 ∷ [])
    ∷ (12 ∷ [])
    ∷ (13 ∷ [])
    ∷ (32 ∷ [])
    ∷ (0xc2 ∷ 0x85 ∷ [])
    ∷ (0xc2 ∷ 0xa0 ∷ [])
    ∷ (0xe1 ∷ 0x9a ∷ 0x80 ∷ [])
    ∷ (0xe2 ∷ 0x80 ∷ 0x80 ∷ [])
    ∷ (0xe2 ∷ 0x80 ∷ 0x81 ∷ [])
    ∷ (0xe2 ∷ 0x80 ∷ 0x82 ∷ [])
    ∷ (0xe2 ∷ 0x80 ∷ 0x83 ∷ [])
    ∷ (0xe2 ∷ 0x80 ∷ 0x84 ∷ [])
    ∷ (0xe2 ∷ 0x80 ∷ 0x85 ∷ [])
    ∷ (0xe2 ∷ 0x80 ∷ 0x86 ∷ [])
    ∷ (0xe2 ∷ 0x80 ∷ 0x87 ∷ [])
    ∷ (0xe2 ∷ 0x80 ∷ 0x88 ∷ [])
    ∷ (0xe2 ∷ 0x80 ∷ 0x89 ∷ [])
    ∷ (0xe2 ∷ 0x80 ∷ 0x8a ∷ [])
    ∷ (0xe2 ∷ 0x80 ∷ 0xa8 ∷ [])
    ∷ (0xe2 ∷ 0x80 ∷ 0xa9 ∷ [])
    ∷ (0xe2 ∷ 0x80 ∷ 0xaf ∷ [])
    ∷ (0xe2 ∷ 0x81 ∷ 0x9f ∷ [])
    ∷ (0xe3 ∷ 0x80 ∷ 0x80 ∷ [])
    ∷ []

-- What follows the first prefix that the text has.
cut_any : List Bytes → Bytes → Option Bytes
unfolding cut_prefix
cut_any [] s = none
cut_any (p ∷ ps) s =
    let rest = cut_any ps s in elim (cut_prefix p s) [ none ↦ rest | some r ↦ some r ]

-- One round for each byte is enough: every space has at least one.
trim_front : ℕ → List Bytes → Bytes → Bytes
unfolding cut_any
trim_front zero ps s = s
trim_front (suc f) ps s = elim (cut_any ps s) [ none ↦ s | some r ↦ trim_front f ps r ]

trim_space : Bytes → Bytes
unfolding trim_front
trim_space s =
    let front = trim_front (length s) spaces s in
    reverse (trim_front (length front) (map reverse spaces) (reverse front))

pub record FindQuery : Type 0 where
  pub id : Bytes
  pub text : Bytes

abbrev query_of_cut : Bytes → Option Bytes → FindQuery
query_of_cut q none = record { id = []; text = q }
query_of_cut q (some rest) = record { id = trim_space rest; text = [] }

unfoldable pub parse_find_query : Bytes → FindQuery
unfolding trim_space
parse_find_query query = let q = trim_space query in query_of_cut q (cut_prefix (bytes "id:") q)
