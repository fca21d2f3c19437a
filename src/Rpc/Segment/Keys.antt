-- ===== src/Rpc/Segment/Keys.antt =====
-- api/rpc/segment.go, KeyTileID and TileKey: a plugin key and the segment that carries it.
use gridwell.Base.{
  ◌≡◌, refl, ap, sym, ◌∙◌, ◌↔◌, true, false, Option, none, some, is_some, [], ◌∷◌, ◌++◌, arith,
  Bytes, All, has_byte, cut_prefix, cut_prefix-eq_some, Option-cases, ◌⊎◌, inl, inr,
}
use mathlib.Core.Bool.{false≢true}
use gridwell.Codec.Int64.{parses_int64, parses_int64-leads_number}
use gridwell.Codec.Base64.{IsByte, decode, strip_newlines, decode_sextet}
use gridwell.Codec.Base64.RoundTrip.{decode-encode, encode-decode, decode-newline, encode_lacks}
use gridwell.Rpc.Id.{slash, IsSegment}
use gridwell.Rpc.Segment.{shape_key, tilde, key_tile_id, tile_key, shape_of, decode_past_prefix}

-- Every key of bytes comes back from its segment.
pub tile_key-key_tile_id : (key : Bytes) → All IsByte key → tile_key (key_tile_id key) ≡ some key
unfolding tile_key key_tile_id
tile_key-key_tile_id key h = decode-encode key h

tilde_of_tile_key :
    (o : Option Bytes) {key : Bytes}
    → decode_past_prefix o ≡ some key
    → (rest : Bytes) × (o ≡ some rest) × (decode rest ≡ some key)
tilde_of_tile_key none e = cc
tilde_of_tile_key (some rest) e = (rest, refl, e)

-- A key-form segment is "~" and what decodes to the key.
tile_key-eq_some :
    (seg : Bytes) {key : Bytes}
    → tile_key seg ≡ some key
    → (rest : Bytes) × (seg ≡ tilde ∷ rest) × (decode rest ≡ some key)
unfolding tile_key
tile_key-eq_some seg e =
    let (rest, k, d) = tilde_of_tile_key (cut_prefix (tilde ∷ []) seg) e in
    (rest, cut_prefix-eq_some (tilde ∷ []) seg k, d)

tile_key-tilde : (rest : Bytes) → tile_key (tilde ∷ rest) ≡ decode rest
unfolding tile_key
tile_key-tilde rest = refl

strip_tilde : (rest : Bytes) → strip_newlines (tilde ∷ rest) ≡ tilde ∷ strip_newlines rest
unfolding strip_newlines
strip_tilde rest = refl

-- A segment that decodes to a key is that key's own segment once its line breaks are left out.
key_tile_id-tile_key :
    (seg key : Bytes)
    → tile_key seg ≡ some key
    → (strip_newlines seg ≡ key_tile_id key) × All IsByte key
unfolding key_tile_id
key_tile_id-tile_key seg key e =
    let (rest, k, d) = tile_key-eq_some seg e in
    let (same, are_bytes) = encode-decode rest key d in
    (ap strip_newlines k ∙ strip_tilde rest ∙ ap (◌∷◌ tilde) (sym same), are_bytes)

strip_end : (s : Bytes) → strip_newlines (s ++ 10 ∷ []) ≡ strip_newlines s
unfolding strip_newlines
strip_end [] = refl
strip_end (c ∷ s) = rw (strip_end s)

-- A line feed after a key-form segment spells the same key a second time.
pub tile_key_respelled :
    (seg key : Bytes) → tile_key seg ≡ some key → tile_key (seg ++ 10 ∷ []) ≡ some key
tile_key_respelled seg key e =
    let (rest, k, d) = tile_key-eq_some seg e in
    ap (λ (s : Bytes). tile_key (s ++ 10 ∷ [])) k
    ∙ tile_key-tilde (rest ++ 10 ∷ [])
    ∙ decode-newline (rest ++ 10 ∷ []) rest (strip_end rest)
    ∙ d

parses_int64-tile_key :
    (seg : Bytes) {key : Bytes} → tile_key seg ≡ some key → parses_int64 seg ≡ false
parses_int64-tile_key seg e =
    let (rest, k, d) = tile_key-eq_some seg e in
    ap parses_int64 k ∙ parses_int64-leads_number tilde rest refl

shape_of-tile_key : (seg : Bytes) {key : Bytes} → tile_key seg ≡ some key → shape_of seg ≡ shape_key
unfolding shape_of
shape_of-tile_key seg e = rw (parses_int64-tile_key seg e, e)

is_some_of_shape : (seg : Bytes) → shape_of seg ≡ shape_key → is_some (tile_key seg) ≡ true
unfolding shape_of
is_some_of_shape seg h = ground arith

-- TileKey succeeds exactly on the segments whose shape is the key form.
shape_key_iff : (seg : Bytes) → (is_some (tile_key seg) ≡ true) ↔ (shape_of seg ≡ shape_key)
shape_key_iff seg = (λ h. forth (Option-cases (tile_key seg)) h, back)
  where
    forth :
        (tile_key seg ≡ none) ⊎ ((key : Bytes) × (tile_key seg ≡ some key))
        → is_some (tile_key seg) ≡ true
        → shape_of seg ≡ shape_key
    forth (inl e) h = absurd (false≢true (sym (ap is_some e) ∙ h))
    forth (inr (key, e)) h = shape_of-tile_key seg e

    back : shape_of seg ≡ shape_key → is_some (tile_key seg) ≡ true
    back h = is_some_of_shape seg h

-- A key's segment is one segment of a chain, with no slash in it, and has the key shape.
key_tile_id_shape :
    (key : Bytes)
    → All IsByte key
    → (shape_of (key_tile_id key) ≡ shape_key) × IsSegment (key_tile_id key)
unfolding key_tile_id has_byte decode_sextet
key_tile_id_shape key h = (
  (shape_key_iff (key_tile_id key)).0 (ap is_some (tile_key-key_tile_id key h)),
  record { filled = refl; whole = encode_lacks slash key h refl },
)
