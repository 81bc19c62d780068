-- ===== src/Sesman/Scalars/Decimal.antt =====
-- Numbers are read as they are written.
use cheirizo.Prelude.{
  ℕ, zero, suc, ◌+◌, ◌-◌, ◌*◌, ◌/◌, ◌%◌, ◌≤◌, ◌<◌, ◌≡◌, ◌∙◌, refl, arith, false, ltb, ◌==◌, some,
  [], ◌∷◌, Text, Bool-cases, inl, inr,
}
use cheirizo.Sesman.Scalars.{scan_digits, parse_unsigned, digits, show_unsigned}

-- Reading the digits of a number in front of a rest that fits is reading the rest from the number on.
scan_digits-digits :
    (max fuel n : ℕ) (out : Text)
    → n < fuel
    → n ≤ max
    → scan_digits max (digits fuel n out) 0 ≡ scan_digits max out n
unfolding digits scan_digits
scan_digits-digits max zero n out lt le = absurd (omega arith)
scan_digits-digits max (suc fuel) n out lt le =
    let back : n / 10 * 10 + (48 + n % 10 - 48) ≡ n = omega arith in
    elim (Bool-cases (ltb n 10)) [
      | inl small ↦
          rw small (let same : 0 + (48 + n % 10 - 48) ≡ n = ground arith in rw same (ground arith))
      | inr large ↦ rw large (
          scan_digits-digits max fuel (n / 10) ((48 + n % 10) ∷ out) (ground arith) (omega arith)
          ∙ rw back (ground arith))
    ]

-- The first digit is no plus sign.
parse-scan :
    (max : ℕ) (c : ℕ) (s : Text)
    → (c == b'+') ≡ false
    → parse_unsigned max (c ∷ s) ≡ scan_digits max (c ∷ s) 0
unfolding parse_unsigned
parse-scan max c [] h = rw h refl
parse-scan max c (d ∷ s) h = rw h refl

abbrev FirstDigit : Text → Type 0
FirstDigit [] = ⊥
FirstDigit (c ∷ s) = (48 ≤ c) × (c ≤ 57)

digits-FirstDigit : (fuel n : ℕ) (out : Text) → n < fuel → FirstDigit (digits fuel n out)
unfolding digits
digits-FirstDigit zero n out lt = absurd (omega arith)
digits-FirstDigit (suc fuel) n out lt = elim (Bool-cases (ltb n 10)) [
  | inl small ↦ rw small (omega arith)
  | inr large ↦ rw large (digits-FirstDigit fuel (n / 10) _ (ground arith))
]

parse_of_digits : (max : ℕ) (s : Text) → FirstDigit s → parse_unsigned max s ≡ scan_digits max s 0
parse_of_digits max [] h = absurd h
parse_of_digits max (c ∷ s) h = parse-scan max c s (ground arith)

-- A number within the range of its type is read as it was written.
pub parse-show : (max n : ℕ) → n ≤ max → parse_unsigned max (show_unsigned n) ≡ some n
unfolding show_unsigned
parse-show max n le =
    parse_of_digits max (digits (suc n) n []) (digits-FirstDigit (suc n) n [] (omega arith))
    ∙ scan_digits-digits max (suc n) n [] (omega arith) le
    ∙ unfold scan_digits in refl
