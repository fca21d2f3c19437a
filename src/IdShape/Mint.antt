-- ===== src/IdShape/Mint.antt =====
-- api/idshape/idshape.go: a minted id and a valid segment against the shapes of api/rpc/segment.go.
use gridwell.Base.{
  ℕ, zero, suc, ◌+◌, ◌<◌, ◌≡◌, refl, ap, sym, Bool, true, false, ◌&&◌, [], ◌∷◌, Option, none, some,
  arith, Bytes, is_empty, has_byte, has_prefix, if◌then◌else◌, length, cut_prefix, leb, ◌==◌, ◌||◌,
  is_some,
}
use gridwell.Codec.Int64.{parses_int64, parses_int64-leads_number, leads_number}
use gridwell.Rpc.Id.{slash, IsSegment}
use gridwell.Rpc.Segment.{shape_namespace, shape_of, tilde, tile_key, decode_past_prefix}
use mathlib.Core.Bool.{false≢true}
use gridwell.IdShape.{
  empty, holds_slash, numeric, key_form, validate_segment, letters, alnum, byte_at, Draws,
  short_id_tail, new_short_id, short_id_len,
}

tile_key_of_no_prefix : (id : Bytes) → has_prefix (tilde ∷ []) id ≡ false → tile_key id ≡ none
unfolding tile_key
tile_key_of_no_prefix id h = past (cut_prefix (tilde ∷ []) id) h
  where
    past : (o : Option Bytes) → is_some o ≡ false → decode_past_prefix o ≡ none
    past none k = refl
    past (some r) k = absurd (false≢true (sym k))

ladder :
    (a b c d : Bool)
    → (if a
        then some empty
        else (if b
            then some holds_slash
            else (if c then some numeric else (if d then some key_form else none))))
      ≡ none
    → (a ≡ false) × (b ≡ false) × (c ≡ false) × (d ≡ false)
ladder a b c d h = ground arith

valid_ladder :
    (id : Bytes)
    → IsSegment id
    → parses_int64 id ≡ false
    → has_prefix (tilde ∷ []) id ≡ false
    → validate_segment id ≡ none
unfolding validate_segment
valid_ladder id seg p t = rw (seg.filled, seg.whole, p, t)

validate_parts :
    (id : Bytes)
    → validate_segment id ≡ none
    → IsSegment id × (parses_int64 id ≡ false) × (has_prefix (tilde ∷ []) id ≡ false)
unfolding validate_segment
validate_parts id h =
    let (e, s, p, t) =
      ladder (is_empty id) (has_byte slash id) (parses_int64 id) (has_prefix (tilde ∷ []) id) h in
    (record { filled = e; whole = s }, p, t)

shape_of_plain :
    (id : Bytes) → parses_int64 id ≡ false → tile_key id ≡ none → shape_of id ≡ shape_namespace
unfolding shape_of
shape_of_plain id p t = rw (p, t)

-- A segment that ValidateSegment accepts is one segment of a chain, and every reader takes it for a
-- namespace.
validate_segment-shape_of :
    (id : Bytes) → validate_segment id ≡ none → IsSegment id × (shape_of id ≡ shape_namespace)
validate_segment-shape_of id h =
    let (seg, p, t) = validate_parts id h in (seg, shape_of_plain id p (tile_key_of_no_prefix id t))

-- Every value below a bound passes a test.
abbrev holds_under : (ℕ → Bool) → ℕ → Bool
holds_under test zero = true
holds_under test (suc end) = holds_under test end && test end

holds_under_at :
    (test : ℕ → Bool) (end : ℕ) → holds_under test end ≡ true → (i : ℕ) → i < end → test i ≡ true
holds_under_at test zero all i below = absurd (omega arith)
holds_under_at test (suc end) all i below = ground (arith, holds_under_at test end (ground arith) i)

abbrev is_lower : ℕ → Bool
is_lower c = leb b'a' c && leb c b'z'

abbrev is_id_byte : ℕ → Bool
is_id_byte c = is_lower c || (leb b'0' c && leb c b'9')

letters_lower : (i : ℕ) → i < 26 → is_lower (byte_at letters i) ≡ true
letters_lower i h = holds_under_at (λ j. is_lower (byte_at letters j)) 26 refl i h

alnum_id_byte : (i : ℕ) → i < 36 → is_id_byte (byte_at alnum i) ≡ true
alnum_id_byte i h = holds_under_at (λ j. is_id_byte (byte_at alnum j)) 36 refl i h

-- A segment is valid exactly as its first byte begins no number and is no "~", at the least.
leads_word :
    (c : ℕ) (cs : Bytes)
    → leads_number c ≡ false
    → (c == tilde) ≡ false
    → (parses_int64 (c ∷ cs) ≡ false) × (has_prefix (tilde ∷ []) (c ∷ cs) ≡ false)
unfolding cut_prefix
leads_word c cs n t = (parses_int64-leads_number c cs n, ground arith)

lower_leads :
    (c : ℕ)
    → is_lower c ≡ true
    → (leads_number c ≡ false) × ((c == tilde) ≡ false) × ((c == slash) ≡ false)
lower_leads c h = ground arith

id_byte_no_slash : (c : ℕ) → is_id_byte c ≡ true → (c == slash) ≡ false
id_byte_no_slash c h = ground arith

module _ (r : Draws) where
  tail_no_slash : (i left : ℕ) → has_byte slash (short_id_tail r i left) ≡ false
  unfolding short_id_tail has_byte
  tail_no_slash i zero = refl
  tail_no_slash i (suc left) =
      rw (id_byte_no_slash _ (alnum_id_byte (r.below i 36) (r.below_lt i 36 (omega arith))))
        (tail_no_slash (i + 1) left)

  length-tail : (i left : ℕ) → length (short_id_tail r i left) ≡ left
  unfolding short_id_tail
  length-tail i zero = refl
  length-tail i (suc left) = ap suc (length-tail (i + 1) left)

  -- Whatever is drawn, a minted id is seven bytes long, a valid segment, and has the shape of a
  -- namespace.
  pub new_short_id-valid :
      (length (new_short_id r) ≡ short_id_len)
      × (validate_segment (new_short_id r) ≡ none)
      × (shape_of (new_short_id r) ≡ shape_namespace)
  unfolding new_short_id has_byte
  new_short_id-valid =
      let lower = letters_lower (r.below 0 26) (r.below_lt 0 26 (omega arith)) in
      let (number, key, whole) = lower_leads (byte_at letters (r.below 0 26)) lower in
      let (p, t) = leads_word (byte_at letters (r.below 0 26)) (short_id_tail r 1 6) number key in
      let valid =
        valid_ladder (new_short_id r)
          (record { filled = refl; whole = rw whole (tail_no_slash 1 6) }) p t in
      (ap suc (length-tail 1 6), valid, (validate_segment-shape_of (new_short_id r) valid).1)
