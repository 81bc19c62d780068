-- ===== src/Clipboard/RtfTests.antt =====
-- Runs of the RTF writer, check and reader.
use cheirizo.Prelude.{◌≡◌, refl, arith, [], ◌∷◌, Text, inl, inr}
use cheirizo.Prelude.Strings.{codes}
use cheirizo.Clipboard.Formats.{
  ok, err, and_then, format_conversion, unmatched_braces, windows1252_to_char,
}
use cheirizo.Clipboard.Formats.Rtf.{text_to_rtf, validate_rtf, escape_all}
use cheirizo.Clipboard.Formats.Rtf.Rounds.{rtf_to_text}
use cheirizo.Clipboard.Formats.Rtf.RoundTrip.{rtf_round_trip}

-- Braces, a line end, a letter of one unit and a character of two.
abbrev sample : Text
sample = b'{' ∷ b'\n' ∷ 0xe9 ∷ 0x1f600 ∷ []

rtf_round_trip_example : and_then (text_to_rtf 1000 sample) (rtf_to_text 1000) ≡ ok sample
rtf_round_trip_example =
    rtf_round_trip 1000 sample
      (
        (inl (omega arith), inr (omega arith)),
        (
          (inl (omega arith), inl refl),
          (
            (inl (omega arith), inr (omega arith)),
            ((inr (omega arith, omega arith), inr (omega arith)), tt),
          ),
        ),
      )
      (omega arith) (unfold escape_all in omega arith)

-- A tab is written as it is, and the reader drops it.
tab_lost :
    and_then (text_to_rtf 1000 (b'a' ∷ b'\t' ∷ b'b' ∷ [])) (rtf_to_text 1000) ≡ ok (codes "ab")
unfolding text_to_rtf rtf_to_text
tab_lost = refl

-- The check counts an escaped brace as one that opens.
own_brace_refused :
    and_then (text_to_rtf 1000 (codes "{")) (validate_rtf 1000)
    ≡ err (format_conversion unmatched_braces)
unfolding text_to_rtf validate_rtf
own_brace_refused = refl

-- An escaped brace ends a destination that is skipped.
skipped_brace : rtf_to_text 1000 (codes "{\\rtf1{\\info a\\}b}c}") ≡ ok (codes "bc")
unfolding rtf_to_text
skipped_brace = refl

fallback_skipped :
    rtf_to_text 1000 (codes "{\\rtf1\\uc1\\u8364\\'80 x\\tab\\'80}")
    ≡ ok (0x20ac ∷ b' ' ∷ b'x' ∷ b'\t' ∷ 0x20ac ∷ [])
unfolding rtf_to_text windows1252_to_char
fallback_skipped = refl
