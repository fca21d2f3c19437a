-- ===== src/Codec/Base64.antt =====
-- encoding/base64's RawURLEncoding: the encoder, and the strict decoder, which skips CR and LF.
pub mod RoundTrip
use gridwell.Base.{
  ℕ, ◌+◌, ◌-◌, ◌*◌, ◌/◌, ◌%◌, ◌<◌, ◌≡◌, refl, Bool, ◌&&◌, ◌||◌, List, [], ◌∷◌, Option, none, some,
  leb, ltb, ◌==◌, if◌then◌else◌, Bytes, bytes,
}

abbrev pub IsByte : ℕ → Type 0
IsByte b = b < 256

-- The character of a sextet: A-Z a-z 0-9 - _.
pub encode_sextet : ℕ → ℕ
encode_sextet n =
    if ltb n 26
    then n + 65
    else (if ltb n 52
        then n + 71
        else (if ltb n 62 then n - 4 else (if n == 62 then b'-' else b'_')))

unfoldable pub decode_sextet : ℕ → Option ℕ
decode_sextet c =
    if leb b'A' c && leb c b'Z'
    then some (c - 65)
    else (if leb b'a' c && leb c b'z'
        then some (c - 71)
        else (if leb b'0' c && leb c b'9'
            then some (c + 4)
            else (if c == b'-' then some 62 else (if c == b'_' then some 63 else none))))

-- Three bytes are four sextets; one and two bytes at the end are two and three.
pub pack : Bytes → List ℕ
pack [] = []
pack (x ∷ []) = x / 4 ∷ ((x % 4) * 16) ∷ []
pack (x ∷ y ∷ []) = x / 4 ∷ ((x % 4) * 16 + y / 16) ∷ ((y % 16) * 4) ∷ []
pack (x ∷ y ∷ z ∷ r) = x / 4 ∷ ((x % 4) * 16 + y / 16) ∷ ((y % 16) * 4 + z / 64) ∷ (z % 64) ∷ pack r

abbrev pub push_three : ℕ → ℕ → ℕ → Option Bytes → Option Bytes
push_three x y z none = none
push_three x y z (some r) = some (x ∷ y ∷ z ∷ r)

-- The inverse. A single sextet at the end is corrupt, and so are bits past the last byte, which the
-- strict decoder wants zero.
pub unpack : List ℕ → Option Bytes
unpack [] = some []
unpack (a ∷ []) = none
unpack (a ∷ b ∷ []) = if b % 16 == 0 then some ((a * 4 + b / 16) ∷ []) else none
unpack (a ∷ b ∷ c ∷ []) =
    if c % 4 == 0 then some ((a * 4 + b / 16) ∷ ((b % 16) * 16 + c / 4) ∷ []) else none
unpack (a ∷ b ∷ c ∷ d ∷ r) =
    push_three (a * 4 + b / 16) ((b % 16) * 16 + c / 4) ((c % 4) * 64 + d) (unpack r)

pub encode_chars : List ℕ → Bytes
unfolding encode_sextet
encode_chars [] = []
encode_chars (n ∷ ns) = encode_sextet n ∷ encode_chars ns

abbrev pub push_sextet : Option ℕ → Option (List ℕ) → Option (List ℕ)
push_sextet none o = none
push_sextet (some n) none = none
push_sextet (some n) (some ns) = some (n ∷ ns)

pub decode_chars : Bytes → Option (List ℕ)
unfolding decode_sextet
decode_chars [] = some []
decode_chars (c ∷ cs) = push_sextet (decode_sextet c) (decode_chars cs)

abbrev pub is_newline : ℕ → Bool
is_newline c = (c == 10) || (c == 13)

unfoldable pub strip_newlines : Bytes → Bytes
strip_newlines [] = []
strip_newlines (c ∷ cs) = let rest = strip_newlines cs in if is_newline c then rest else c ∷ rest

abbrev pub unpack? : Option (List ℕ) → Option Bytes
unpack? none = none
unpack? (some ns) = unpack ns

-- RawURLEncoding.EncodeToString
unfoldable pub encode : Bytes → Bytes
unfolding encode_chars pack
encode s = encode_chars (pack s)

-- RawURLEncoding.Strict().DecodeString, none for its error
unfoldable pub decode : Bytes → Option Bytes
unfolding decode_chars unpack strip_newlines
decode s = unpack? (decode_chars (strip_newlines s))
