-- ===== src/Clipboard/Formats/Rtf/Numbers.antt =====
-- The unit of a `\u` is read as it was written.
use mathlib.Core.List.{append_assoc}
use cheirizo.Prelude.{
  ℕ, zero, suc, ◌+◌, ◌-◌, ◌/◌, ◌%◌, ◌<◌, ◌≡◌, ◌∙◌, refl, ap, sym, subst, arith, true, false, ltb,
  ◌==◌, if◌then◌else◌, Option, none, some, [], ◌∷◌, ◌++◌, All, Text, text_eq, Bool-cases, inl, inr,
}
use cheirizo.Prelude.Int.{ℤ, pos, negsuc}
use cheirizo.Prelude.Utf8.{IsAscii}
use cheirizo.Sesman.Scalars.{digits, show_unsigned, parse_unsigned}
use cheirizo.Sesman.Scalars.Decimal.{parse-show}
use cheirizo.Clipboard.Formats.Rtf.{
  Reader, unit_escape, is_alpha, is_digit, span, parameter, as_unit, read_unit,
}
use cheirizo.Clipboard.Formats.Rtf.Rounds.{obey, control, control_word, round}
use cheirizo.Clipboard.Formats.Rtf.Ends.{Reads, Reads-step}

abbrev IsDigit : ℕ → Type 0
IsDigit c = is_digit c ≡ true

digits-All : (fuel n : ℕ) (out : Text) → All IsDigit out → All IsDigit (digits fuel n out)
unfolding digits
digits-All zero n out h = h
digits-All (suc fuel) n out h = elim (Bool-cases (ltb n 10)) [
  | inl e ↦ rw e (ground arith, h)
  | inr e ↦ rw e (digits-All fuel (n / 10) ((b'0' + n % 10) ∷ out) (ground arith, h))
]

span-digits :
    (ds rest : Text) → All IsDigit ds → span is_digit (ds ++ (b'?' ∷ rest)) ≡ (ds, b'?' ∷ rest)
unfolding span
span-digits [] rest h = refl
span-digits (d ∷ ds) rest h = rw (h.0, span-digits ds rest h.1) refl

parse-nil : (max : ℕ) → parse_unsigned max [] ≡ none
unfolding parse_unsigned
parse-nil max = refl

parameter-digits :
    (ds rest : Text) (n : ℕ)
    → All IsDigit ds
    → parse_unsigned 2147483647 ds ≡ some n
    → parameter (ds ++ (b'?' ∷ rest)) ≡ (some (pos n), b'?' ∷ rest)
parameter-digits [] rest n h e = absurd (cc (parse-nil 2147483647))
parameter-digits (d ∷ ds) rest n h e =
    let plain : (d == b'-') ≡ false = ground (arith, h.0) in
    unfold parameter in rw (plain, span-digits (d ∷ ds) rest h, e) refl

parameter-minus :
    (ds rest : Text) (n : ℕ)
    → All IsDigit ds
    → parse_unsigned 2147483648 ds ≡ some (suc n)
    → parameter (b'-' ∷ (ds ++ (b'?' ∷ rest))) ≡ (some (negsuc n), b'?' ∷ rest)
unfolding parameter
parameter-minus ds rest n h e = rw (span-digits ds rest h, e) refl

pub show-IsAscii : (n : ℕ) → All IsAscii (show_unsigned n)
unfolding show_unsigned
show-IsAscii n = ascii (digits (suc n) n []) (digits-All (suc n) n [] tt)
  where
    ascii : (s : Text) → All IsDigit s → All IsAscii s
    ascii [] h = tt
    ascii (c ∷ s) h = (ground (arith, h.0), ascii s h.1)

-- No letter stands at the front.
abbrev NoLetter : Text → Type 0
NoLetter [] = Unit
NoLetter (c ∷ s) = is_alpha c ≡ false

span-NoLetter : (s : Text) → NoLetter s → span is_alpha s ≡ ([], s)
unfolding span
span-NoLetter [] h = refl
span-NoLetter (c ∷ s) h = rw h refl

digits-NoLetter : (ds rest : Text) → All IsDigit ds → NoLetter (ds ++ (b'?' ∷ rest))
digits-NoLetter [] rest h = refl
digits-NoLetter (d ∷ ds) rest h = ground (arith, h.0)

-- What stands for the unit: a text whose number is the unit.
number : ℕ → Text → Text
number u rest =
    (if ltb u 32768 then show_unsigned u else b'-' ∷ show_unsigned (65536 - u)) ++ (b'?' ∷ rest)

parameter-number :
    (u : ℕ) (rest : Text)
    → u < 65536
    → (z : ℤ) × (parameter (number u rest) ≡ (some z, b'?' ∷ rest))
      × (as_unit z ≡ u)
      × NoLetter (number u rest)
unfolding number
parameter-number u rest h = elim (Bool-cases (ltb u 32768)) [
  | inl e ↦
      let ds : All IsDigit (show_unsigned u) = unfold show_unsigned in digits-All (suc u) u [] tt in
      rw e (
        pos u,
        parameter-digits (show_unsigned u) rest u ds (parse-show 2147483647 u (omega arith)),
        omega arith,
        digits-NoLetter (show_unsigned u) rest ds,
      )
  | inr e ↦
      let m : ℕ = 65535 - u in
      let ds : All IsDigit (show_unsigned (65536 - u)) =
        unfold show_unsigned in digits-All (suc (65536 - u)) (65536 - u) [] tt in
      let shown : parse_unsigned 2147483648 (show_unsigned (65536 - u)) ≡ some (suc m) =
        parse-show 2147483648 (65536 - u) (omega arith) ∙ ap some (omega arith) in
      rw e
        (negsuc m, parameter-minus (show_unsigned (65536 - u)) rest m ds shown, omega arith, refl)
]

-- The reader within the text of the document.
abbrev pub body : Option ℕ → ℕ → Reader
body pending skip = record {
  skip_depth = none;
  group_depth = pos 1;
  unicode_fallback_count = 1;
  fallback_chars_to_skip = skip;
  pending_high_surrogate = pending;
}

control_word-unit :
    (r : Reader) (s rest : Text) (z : ℤ)
    → r.skip_depth ≡ none
    → span is_alpha s ≡ ([], s)
    → parameter s ≡ (some z, b'?' ∷ rest)
    → control_word r (b'u' ∷ s)
      ≡ ((read_unit r (as_unit z)).0, (read_unit r (as_unit z)).1, b'?' ∷ rest)
unfolding control_word control obey text_eq span
control_word-unit r s rest z skip word value = rw (word, value, skip) refl

round-unit :
    (pending : Option ℕ) (u : ℕ) (rest : Text)
    → u < 65536
    → round (body pending 0) b'\\' (b'u' ∷ number u rest)
      ≡ ((read_unit (body pending 0) u).0, (read_unit (body pending 0) u).1, b'?' ∷ rest)
unfolding round
round-unit pending u rest h =
    let read = parameter-number u rest h in
    control_word-unit (body pending 0) (number u rest) rest read.0 refl
      (span-NoLetter (number u rest) read.3) read.1
    ∙ rw read.2 refl

unit_escape-number : (u : ℕ) (rest : Text) → unit_escape u ++ rest ≡ b'\\' ∷ b'u' ∷ number u rest
unfolding unit_escape number
unit_escape-number u rest = ap (λ s. b'\\' ∷ b'u' ∷ s) (append_assoc _ (b'?' ∷ []) rest)

-- The unit that is written is read, and the question mark behind it is skipped.
pub Reads-unit :
    (pending after : Option ℕ) (u : ℕ) (rest out t : Text)
    → u < 65536
    → read_unit (body pending 0) u ≡ (out, body after 1)
    → Reads (body after 0) rest t
    → Reads (body pending 0) (unit_escape u ++ rest) (out ++ t)
Reads-unit pending after u rest out t h read reads =
    let marked : Reads (body after 1) (b'?' ∷ rest) t =
      Reads-step (body after 1) b'?' rest ([], body after 0, rest) t (unfold round in refl) reads in
    let next : round (body pending 0) b'\\' (b'u' ∷ number u rest)
        ≡ (out, body after 1, b'?' ∷ rest) =
      round-unit pending u rest h ∙ rw read refl in
    subst (λ s. Reads (body pending 0) s (out ++ t)) (sym (unit_escape-number u rest))
      (Reads-step (body pending 0) b'\\' (b'u' ∷ number u rest) (out, body after 1, b'?' ∷ rest) t
        next marked)
