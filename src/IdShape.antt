-- ===== src/IdShape.antt =====
-- api/idshape/idshape.go: the ids that are minted, and what a namespace segment must satisfy.
pub mod Mint
use gridwell.Base.{
  ℕ, zero, suc, ◌+◌, ◌<◌, ◌≤◌, ◌≡◌, refl, ap, sym, ◌∙◌, Bool, true, false, ◌&&◌, List, [], ◌∷◌,
  Option, none, some, arith, Bytes, bytes, is_empty, has_byte, has_prefix, if◌then◌else◌, length,
  Bool-cases, inl, inr, cut_prefix, leb, ltb, ◌==◌, ◌||◌, &&_left, &&_right, is_some,
}
use gridwell.Codec.Int64.{parses_int64, parses_int64-leads_number, leads_number}
use gridwell.Rpc.Id.{slash, IsSegment}
use gridwell.Rpc.Segment.{
  SegmentShape, shape_namespace, shape_of, tilde, tile_key, decode_past_prefix,
}

-- The four refusals of ValidateSegment, by their text.
pub data SegmentError : Type 0 where
  empty holds_slash numeric key_form : SegmentError

-- ValidateSegment: none is the nil error.
pub validate_segment : Bytes → Option SegmentError
unfolding has_byte parses_int64 cut_prefix
validate_segment id =
    if is_empty id
    then some empty
    else (if has_byte slash id
        then some holds_slash
        else (if parses_int64 id
            then some numeric
            else (if has_prefix (tilde ∷ []) id then some key_form else none)))

-- shortIDLen
abbrev pub short_id_len : ℕ
short_id_len = 7

abbrev pub letters : Bytes
letters = bytes "abcdefghijklmnopqrstuvwxyz"

abbrev pub alnum : Bytes
alnum = bytes "0123456789abcdefghijklmnopqrstuvwxyz"

-- s[i]; the index is in range at every call.
abbrev pub byte_at : Bytes → ℕ → ℕ
byte_at [] i = 0
byte_at (b ∷ bs) zero = b
byte_at (b ∷ bs) (suc i) = byte_at bs i

-- crypto/rand as randBelow reads it: the i-th draw below n.
pub record Draws : Type 0 where
  pub below : ℕ → ℕ → ℕ
  pub below_lt : (i n : ℕ) → 0 < n → below i n < n

module _ (r : Draws) where
  -- The loop of NewShortID, with the bytes left to fill.
  pub short_id_tail : ℕ → ℕ → Bytes
  short_id_tail i zero = []
  short_id_tail i (suc left) = byte_at alnum (r.below i 36) ∷ short_id_tail (i + 1) left

  unfoldable pub new_short_id : Bytes
  unfolding short_id_tail
  new_short_id = byte_at letters (r.below 0 26) ∷ short_id_tail 1 6
