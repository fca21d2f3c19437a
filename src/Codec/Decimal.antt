-- ===== src/Codec/Decimal.antt =====
-- strconv.Itoa and fmt's %d for a number that is not negative.
use gridwell.Base.{
  ℕ, zero, suc, ◌+◌, ◌-◌, ◌*◌, ◌/◌, ◌%◌, ◌≤◌, ◌≡◌, refl, ap, sym, ◌∙◌, [], ◌∷◌, ◌++◌, Bytes,
  if◌then◌else◌, ltb, arith, Bool-cases, inl, inr,
}

-- The digits of n, on a round for each and one more.
abbrev digits_within : ℕ → ℕ → Bytes
digits_within zero n = []
digits_within (suc fuel) n =
    let front = digits_within fuel (n / 10) in
    if ltb n 10 then (48 + n) ∷ [] else front ++ (48 + n % 10) ∷ []

unfoldable pub itoa : ℕ → Bytes
itoa n = digits_within (suc n) n

-- The number that digits spell, behind one already read.
abbrev spelled : ℕ → Bytes → ℕ
spelled acc [] = acc
spelled acc (c ∷ s) = spelled (acc * 10 + (c - 48)) s

spelled-append :
    (acc : ℕ) (s : Bytes) (c : ℕ) → spelled acc (s ++ c ∷ []) ≡ spelled acc s * 10 + (c - 48)
spelled-append acc [] c = refl
spelled-append acc (d ∷ s) c = spelled-append (acc * 10 + (d - 48)) s c

spelled-digits_within : (fuel n : ℕ) → n ≤ fuel → spelled 0 (digits_within (suc fuel) n) ≡ n
spelled-digits_within zero n h = elim (Bool-cases (ltb n 10)) [
  | inl e ↦ rw e (omega arith)
  | inr e ↦ absurd (ground arith)
]
spelled-digits_within (suc fuel) n h = elim (Bool-cases (ltb n 10)) [
  | inl e ↦ rw e (omega arith)
  | inr e ↦ rw e (
      spelled-append 0 (digits_within (suc fuel) (n / 10)) (48 + n % 10)
      ∙ omega (arith, spelled-digits_within fuel (n / 10) (ground arith)))
]

-- No two numbers are written alike.
pub itoa_inj : (m n : ℕ) → itoa m ≡ itoa n → m ≡ n
unfolding itoa
itoa_inj m n e =
    sym (spelled-digits_within m m (omega arith))
    ∙ ap (spelled 0) e
    ∙ spelled-digits_within n n (omega arith)
