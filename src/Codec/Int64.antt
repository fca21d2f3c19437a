-- ===== src/Codec/Int64.antt =====
-- strconv.ParseInt(s, 10, 64): only whether it succeeds, which is all that the callers read.
use gridwell.Base.{
  ℕ, ◌+◌, ◌-◌, ◌*◌, ◌≡◌, Bool, true, false, ◌&&◌, [], ◌∷◌, Option, none, some, arith, leb, ltb,
  ◌==◌, if◌then◌else◌, Bytes, is_empty,
}

abbrev is_digit : ℕ → Bool
is_digit c = leb b'0' c && leb c b'9'

-- The value of a run of digits; none at any other byte.
digits_value : ℕ → Bytes → Option ℕ
digits_value acc [] = some acc
digits_value acc (c ∷ cs) =
    let rest = digits_value (acc * 10 + (c - b'0')) cs in if is_digit c then rest else none

abbrev value_within : ℕ → Option ℕ → Bool
value_within bound none = false
value_within bound (some n) = ltb n bound

-- The digits after the sign. The bound is 2^63 for a positive number, 2^63 + 1 for a negative one.
unsigned_within : ℕ → Bytes → Bool
unfolding digits_value
unsigned_within bound s = if is_empty s then false else value_within bound (digits_value 0 s)

-- The error of ParseInt is nil.
unfoldable pub parses_int64 : Bytes → Bool
unfolding unsigned_within
parses_int64 [] = false
parses_int64 (c ∷ cs) =
    if c == b'-'
    then unsigned_within 9223372036854775809 cs
    else (if c == b'+'
        then unsigned_within 9223372036854775808 cs
        else unsigned_within 9223372036854775808 (c ∷ cs))

-- A byte that can begin a number.
abbrev pub leads_number : ℕ → Bool
leads_number c = if c == b'-' then true else (if c == b'+' then true else is_digit c)

pub parses_int64-leads_number :
    (c : ℕ) (cs : Bytes) → leads_number c ≡ false → parses_int64 (c ∷ cs) ≡ false
unfolding parses_int64
parses_int64-leads_number c cs h = ground arith
