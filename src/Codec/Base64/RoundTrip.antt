-- ===== src/Codec/Base64/RoundTrip.antt =====
-- The encoder and the strict decoder of Codec.Base64, one after the other.
use gridwell.Base.{
  ℕ, ◌+◌, ◌*◌, ◌/◌, ◌%◌, ◌<◌, ◌≡◌, refl, ap, ◌∙◌, false, List, [], ◌∷◌, Option, none, some, arith,
  Bytes, All, has_byte, ==_iff,
}
use gridwell.Codec.Base64.{
  IsByte, encode_sextet, decode_sextet, pack, unpack, push_three, encode_chars, decode_chars,
  push_sextet, is_newline, strip_newlines, unpack?, encode, decode,
}

abbrev IsSextet : ℕ → Type 0
IsSextet n = n < 64

decode-encode_sextet : (n : ℕ) → IsSextet n → decode_sextet (encode_sextet n) ≡ some n
unfolding decode_sextet encode_sextet
decode-encode_sextet n h = ground arith

encode-decode_sextet : (c n : ℕ) → decode_sextet c ≡ some n → (encode_sextet n ≡ c) × IsSextet n
unfolding decode_sextet encode_sextet
encode-decode_sextet c n h = ground arith

encode_sextet-not_newline : (n : ℕ) → IsSextet n → is_newline (encode_sextet n) ≡ false
unfolding encode_sextet
encode_sextet-not_newline n h = ground arith

pack-IsSextet : (s : Bytes) → All IsByte s → All IsSextet (pack s)
unfolding pack
pack-IsSextet [] h = tt
pack-IsSextet (x ∷ []) h = omega arith
pack-IsSextet (x ∷ y ∷ []) h = omega arith
pack-IsSextet (x ∷ y ∷ z ∷ r) h =
    (omega arith, (omega arith, (omega arith, (omega arith, pack-IsSextet r h.1.1.1))))

unpack-pack : (s : Bytes) → All IsByte s → unpack (pack s) ≡ some s
unfolding pack unpack
unpack-pack [] h = refl
unpack-pack (x ∷ []) h = ground arith
unpack-pack (x ∷ y ∷ []) h = ground arith
unpack-pack (x ∷ y ∷ z ∷ r) h = ground (arith, unpack-pack r h.1.1.1)

pack-push_three :
    (a b c d : ℕ) (r : List ℕ) (o : Option Bytes) {s : Bytes}
    → IsSextet a × IsSextet b × IsSextet c × IsSextet d
    → ((t : Bytes) → o ≡ some t → (pack t ≡ r) × All IsByte t)
    → push_three (a * 4 + b / 16) ((b % 16) * 16 + c / 4) ((c % 4) * 64 + d) o ≡ some s
    → (pack s ≡ a ∷ b ∷ c ∷ d ∷ r) × All IsByte s
unfolding pack
pack-push_three a b c d r none h ih e = cc
pack-push_three a b c d r (some t) h ih e = ground (arith, ih t)

pack-unpack :
    (ns : List ℕ) (s : Bytes) → All IsSextet ns → unpack ns ≡ some s → (pack s ≡ ns) × All IsByte s
unfolding pack unpack
pack-unpack [] s h e = ground arith
pack-unpack (a ∷ []) s h e = cc
pack-unpack (a ∷ b ∷ []) s h e = ground arith
pack-unpack (a ∷ b ∷ c ∷ []) s h e = ground arith
pack-unpack (a ∷ b ∷ c ∷ d ∷ r) s h e =
    pack-push_three a b c d r (unpack r) (h.0, h.1.0, h.1.1.0, h.1.1.1.0)
      (λ t k. pack-unpack r t h.1.1.1.1 k) e

decode-encode_chars : (ns : List ℕ) → All IsSextet ns → decode_chars (encode_chars ns) ≡ some ns
unfolding decode_chars encode_chars
decode-encode_chars [] h = refl
decode-encode_chars (n ∷ ns) h = rw (decode-encode_sextet n h.0, decode-encode_chars ns h.1)

encode-push_sextet :
    (c : ℕ) (cs : Bytes) (o : Option ℕ) (p : Option (List ℕ)) {ns : List ℕ}
    → ((n : ℕ) → o ≡ some n → (encode_sextet n ≡ c) × IsSextet n)
    → ((ms : List ℕ) → p ≡ some ms → (encode_chars ms ≡ cs) × All IsSextet ms)
    → push_sextet o p ≡ some ns
    → (encode_chars ns ≡ c ∷ cs) × All IsSextet ns
unfolding encode_chars
encode-push_sextet c cs none p h k e = cc
encode-push_sextet c cs (some n) none h k e = cc
encode-push_sextet c cs (some n) (some ms) h k e = ground (arith, h n, k ms)

encode-decode_chars :
    (cs : Bytes) (ns : List ℕ)
    → decode_chars cs ≡ some ns
    → (encode_chars ns ≡ cs) × All IsSextet ns
unfolding decode_chars
encode-decode_chars [] ns e = ground (arith, encode_chars_nil)
  where
    encode_chars_nil : encode_chars [] ≡ []
    encode_chars_nil = unfold encode_chars in refl
encode-decode_chars (c ∷ cs) ns e =
    encode-push_sextet c cs (decode_sextet c) (decode_chars cs) (encode-decode_sextet c)
      (encode-decode_chars cs) e

strip-encode_chars :
    (ns : List ℕ) → All IsSextet ns → strip_newlines (encode_chars ns) ≡ encode_chars ns
unfolding strip_newlines encode_chars
strip-encode_chars [] h = refl
strip-encode_chars (n ∷ ns) h =
    rw (encode_sextet-not_newline n h.0) (ap (◌∷◌ (encode_sextet n)) (strip-encode_chars ns h.1))

pub decode-encode : (s : Bytes) → All IsByte s → decode (encode s) ≡ some s
unfolding decode encode
decode-encode s h =
    rw
      (
        strip-encode_chars (pack s) (pack-IsSextet s h),
        decode-encode_chars (pack s) (pack-IsSextet s h),
      )
      (unpack-pack s h)

unpack?-eq_some :
    (o : Option (List ℕ)) (s : Bytes)
    → unpack? o ≡ some s
    → (ns : List ℕ) × (o ≡ some ns) × (unpack ns ≡ some s)
unpack?-eq_some none s e = cc
unpack?-eq_some (some ns) s e = (ns, refl, e)

pub encode-decode : (t s : Bytes) → decode t ≡ some s → (encode s ≡ strip_newlines t) × All IsByte s
unfolding decode encode
encode-decode t s e =
    let (ns, k, u) = unpack?-eq_some (decode_chars (strip_newlines t)) s e in
    let (chars, sextets) = encode-decode_chars (strip_newlines t) ns k in
    let (packed, are_bytes) = pack-unpack ns s sextets u in
    (ap encode_chars packed ∙ chars, are_bytes)

-- A newline anywhere makes no difference.
pub decode-newline : (t u : Bytes) → strip_newlines t ≡ strip_newlines u → decode t ≡ decode u
unfolding decode
decode-newline t u e = rw e

encode_chars_lacks :
    (c : ℕ) (ns : List ℕ)
    → All IsSextet ns
    → decode_sextet c ≡ none
    → has_byte c (encode_chars ns) ≡ false
unfolding encode_chars has_byte
encode_chars_lacks c [] h out = refl
encode_chars_lacks c (n ∷ ns) h out =
    ground (arith, encode_chars_lacks c ns, decode-encode_sextet n, ==_iff (encode_sextet n) c)

-- A byte outside the alphabet is in no encoding.
pub encode_lacks :
    (c : ℕ) (s : Bytes) → All IsByte s → decode_sextet c ≡ none → has_byte c (encode s) ≡ false
unfolding encode
encode_lacks c s h out = encode_chars_lacks c (pack s) (pack-IsSextet s h) out
