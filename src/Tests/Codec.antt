-- ===== src/Tests/Codec.antt =====
-- What the modelled files use of strconv and encoding/base64, run.
use gridwell.Base.{◌≡◌, refl, true, false, some, none, bytes}
use gridwell.Codec.Int64.{parses_int64}
use gridwell.Codec.Base64.{encode, decode}

parses_max : parses_int64 (bytes "9223372036854775807") ≡ true
unfolding parses_int64
parses_max = refl

parses_min : parses_int64 (bytes "-9223372036854775808") ≡ true
unfolding parses_int64
parses_min = refl

refuses_overflow : parses_int64 (bytes "9223372036854775808") ≡ false
unfolding parses_int64
refuses_overflow = refl

refuses_letters : parses_int64 (bytes "12a") ≡ false
unfolding parses_int64
refuses_letters = refl

encode_sample : encode (bytes "a/b?c>") ≡ bytes "YS9iP2M-"
unfolding encode
encode_sample = refl

decode_sample : decode (bytes "YS9iP2M-") ≡ some (bytes "a/b?c>")
unfolding decode
decode_sample = refl

decode_loose : decode (bytes "YR") ≡ none
unfolding decode
decode_loose = refl
