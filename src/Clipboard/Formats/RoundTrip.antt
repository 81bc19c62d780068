-- ===== src/Clipboard/Formats/RoundTrip.antt =====
-- A text that is converted for the client comes back.
use cheirizo.Prelude.{
  ℕ, ◌+◌, ◌*◌, ◌%◌, ◌≤◌, ◌≡◌, ◌≢◌, ◌⊎◌, ◌∙◌, refl, arith, false, ltb, ◌==◌, true, List, [], ◌∷◌,
  ◌++◌, length, length-append, All, map, Text, Bool-cases, inl, inr,
}
use cheirizo.Prelude.Strings.{strip_suffix-snoc}
use cheirizo.Prelude.Utf16.{
  IsScalar, units_of, encode_utf16, unit_bytes, units, from_utf16-encode_utf16, units-unit_bytes,
  length-unit_bytes, encode_utf16-IsUnit,
}
use cheirizo.Clipboard.Sanitize.{byte_len}
use cheirizo.Clipboard.Sanitize.Names.{length-byte_len}
use cheirizo.Clipboard.Formats.{
  ok, and_then, text_to_unicode, drop_terminator, unicode_to_text, text_to_page, page_to_text,
  text_to_ansi, ansi_to_text, text_to_oem, oem_to_text, char_to_windows1252, windows1252_to_char,
  char_to_cp437, cp437_to_char, windows1252_back, cp437_back,
}

pub length-encode_utf16 : (s : Text) → length (encode_utf16 s) ≤ byte_len s
unfolding encode_utf16 units_of
length-encode_utf16 [] = omega arith
length-encode_utf16 (c ∷ s) = elim (Bool-cases (ltb c 0x10000)) [
  | inl e ↦ rw e (ground (arith, length-encode_utf16 s))
  | inr e ↦
      let n : ltb c 0x80 ≡ false = ground arith in
      let m : ltb c 0x800 ≡ false = ground arith in
      rw (e, n, m) (omega (arith, length-encode_utf16 s))
]

drop_terminator-snoc : (us : List ℕ) → drop_terminator (us ++ 0 ∷ []) ≡ us
unfolding drop_terminator
drop_terminator-snoc us = rw (drop_terminator, strip_suffix-snoc 0 us) refl

-- A text that fits twice into the limit, with a terminator, comes back from its Unicode form.
pub unicode_round_trip :
    (max : ℕ) (s : Text)
    → All IsScalar s
    → 2 * byte_len s + 2 ≤ max
    → and_then (text_to_unicode max s) (unicode_to_text max) ≡ ok s
unfolding text_to_unicode unicode_to_text
unicode_round_trip max s scalars fits =
    let us : List ℕ = encode_utf16 s in
    let total : length (unit_bytes us ++ 0 ∷ 0 ∷ []) ≡ 2 * length us + 2 =
      omega (arith, length-append (unit_bytes us) (0 ∷ 0 ∷ []), length-unit_bytes us) in
    let small : ltb max (byte_len s) ≡ false = ground arith in
    let small' : ltb max (2 * length us + 2) ≡ false = ground (arith, length-encode_utf16 s) in
    let even : ((2 * length us + 2) % 2 == 0) ≡ true = ground arith in
    let whole : units (unit_bytes us ++ 0 ∷ 0 ∷ []) ≡ us ++ 0 ∷ [] =
      units-unit_bytes us (0 ∷ 0 ∷ []) (encode_utf16-IsUnit s scalars) ∙ unfold units in refl in
    rw
      (
        small,
        total,
        small',
        even,
        whole,
        drop_terminator-snoc us,
        from_utf16-encode_utf16 s scalars,
      )
      refl

-- A character or the question mark in its place.
abbrev pub IsKept : ℕ → ℕ → Type 0
IsKept c d = (d ≡ c) ⊎ (d ≡ b'?')

abbrev pub AllKept : Text → Text → Type 0
AllKept [] [] = Unit
AllKept (c ∷ s) (d ∷ t) = IsKept c d × AllKept s t
AllKept _ _ = ⊥

length-map : (f : ℕ → ℕ) (s : Text) → length (map f s) ≡ length s
length-map f [] = refl
length-map f (c ∷ s) = omega (arith, length-map f s)

module _ (to_byte to_char : ℕ → ℕ) where
  page_round_trip :
      (max : ℕ) (s : Text)
      → byte_len s + 1 ≤ max
      → and_then (text_to_page to_byte max s) (page_to_text to_char max)
        ≡ ok (map to_char (map to_byte s))
  unfolding text_to_page page_to_text
  page_round_trip max s fits =
      let size : length (map to_byte s ++ 0 ∷ []) ≡ length s + 1 =
        omega (arith, length-append (map to_byte s) (0 ∷ []), length-map to_byte s) in
      let small : ltb max (byte_len s) ≡ false = ground arith in
      let small' : ltb max (length s + 1) ≡ false = ground (arith, length-byte_len s) in
      rw (small, size, small', drop_terminator-snoc (map to_byte s)) refl

  module _ {κ} (P : ℕ → Type κ)
      (back : (c : ℕ) → P c → (to_char (to_byte c) ≡ c) ⊎ (to_byte c ≡ b'?'))
      (mark : to_char b'?' ≡ b'?') where
    map-AllKept : (s : Text) → All P s → AllKept s (map to_char (map to_byte s))
    map-AllKept [] h = tt
    map-AllKept (c ∷ s) h = (kept (back c h.0), map-AllKept s h.1)
      where
        kept : (to_char (to_byte c) ≡ c) ⊎ (to_byte c ≡ b'?') → IsKept c (to_char (to_byte c))
        kept (inl e) = inl e
        kept (inr e) = inr (rw e mark)

all_numbers : (s : Text) → All (λ c. 0 ≤ c) s
all_numbers [] = tt
all_numbers (c ∷ s) = (omega arith, all_numbers s)

-- A text that fits into the limit with a terminator comes back from its ANSI form, with a question
-- mark at most in the place of a character.
pub ansi_round_trip :
    (max : ℕ) (s : Text)
    → byte_len s + 1 ≤ max
    → (t : Text) × (and_then (text_to_ansi max s) (ansi_to_text max) ≡ ok t) × AllKept s t
unfolding text_to_ansi ansi_to_text
ansi_round_trip max s fits = (
  map windows1252_to_char (map char_to_windows1252 s),
  page_round_trip char_to_windows1252 windows1252_to_char max s fits,
  map-AllKept char_to_windows1252 windows1252_to_char (λ c. 0 ≤ c) (λ c h. windows1252_back c)
      (unfold windows1252_to_char in refl) s (all_numbers s),
)

-- A text without a middle dot that fits into the limit with a terminator comes back from its OEM
-- form, with a question mark at most in the place of a character.
pub oem_round_trip :
    (max : ℕ) (s : Text)
    → All (λ c. c ≢ 0xb7) s
    → byte_len s + 1 ≤ max
    → (t : Text) × (and_then (text_to_oem max s) (oem_to_text max) ≡ ok t) × AllKept s t
unfolding text_to_oem oem_to_text
oem_round_trip max s dots fits = (
  map cp437_to_char (map char_to_cp437 s),
  page_round_trip char_to_cp437 cp437_to_char max s fits,
  map-AllKept char_to_cp437 cp437_to_char (λ c. c ≢ 0xb7) cp437_back (unfold cp437_to_char in refl)
      s dots,
)
