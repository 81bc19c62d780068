-- ===== src/Clipboard/Formats/Rtf.antt =====
-- RTF in src/rdp/channels/clipboard/core/formats.rs: `text_to_rtf`, `validate_rtf`, and the reader of
-- `rtf_to_text`. A round of its loop gives the characters that it adds, the state and the rest.
pub mod Rounds
pub mod Ends
pub mod Numbers
pub mod Ascii
pub mod RoundTrip
use cheirizo.Prelude.{
  ℕ, zero, suc, ◌+◌, ◌-◌, ◌*◌, ◌%◌, Bool, true, false, not, ◌&&◌, ◌||◌, ltb, leb, ◌==◌,
  if◌then◌else◌, Option, none, some, List, [], ◌∷◌, ◌++◌, length, any, map, take, drop, Text,
  text_eq,
}
use cheirizo.Prelude.Int.{ℤ, pos, negsuc, ◌+ℤ◌}
use cheirizo.Prelude.Strings.{codes}
use cheirizo.Prelude.Utf8.{from_utf8}
use cheirizo.Prelude.Utf16.{units_of, is_high, is_low, join}
use cheirizo.Sesman.Scalars.{show_unsigned, parse_unsigned}
use cheirizo.Clipboard.Sanitize.{byte_len}
use cheirizo.Clipboard.Formats.{
  Converted, ok, err, and_then, ok_or, limited, invalid_utf8, format_conversion, invalid_rtf,
  unmatched_closing_brace, unmatched_braces, Reason, windows1252_to_char,
}

abbrev pub rtf_head : Text
rtf_head = codes "{\\rtf1\\ansi\\deff0\n{\\fonttbl{\\f0\\fswiss\\fcharset0 Arial;}}\n"

-- `\u`, the unit as an `i16`, and a question mark.
unfoldable pub unit_escape : ℕ → Text
unfolding show_unsigned
unit_escape u =
    b'\\'
    ∷ b'u'
    ∷ ((if ltb u 32768 then show_unsigned u else b'-' ∷ show_unsigned (65536 - u)) ++ b'?' ∷ [])

abbrev pub unit_escapes : List ℕ → Text
unit_escapes [] = []
unit_escapes (u ∷ us) = unit_escape u ++ unit_escapes us

unfoldable pub escape : ℕ → Text
unfolding units_of unit_escape
escape c =
    if c == b'\\'
    then codes "\\\\"
    else if c == b'{'
    then codes "\\{"
    else if c == b'}'
    then codes "\\}"
    else if c == b'\n'
    then codes "\\par\n"
    else if c == b'\r'
    then []
    else if ltb c 128
    then c ∷ []
    else unit_escapes (units_of c)

unfoldable pub escape_all : Text → Text
unfolding escape
escape_all [] = []
escape_all (c ∷ s) = escape c ++ escape_all s

unfoldable pub text_to_rtf : ℕ → Text → Converted (List ℕ)
unfolding escape_all
text_to_rtf max text = limited max (byte_len text) (ok (rtf_head ++ (escape_all text ++ b'}' ∷ [])))

abbrev pub rtf_mark : Text
rtf_mark = codes "{\\rtf"

-- `starts_with`.
unfoldable pub starts_with : Text → List ℕ → Bool
starts_with [] bytes = true
starts_with (c ∷ mark) [] = false
starts_with (c ∷ mark) (b ∷ bytes) = c == b && starts_with mark bytes

-- The check of the braces from a depth on: what is wrong with them. A depth below 0 ends it.
unfoldable pub wrong_braces : ℕ → List ℕ → Option Reason
wrong_braces depth [] = if depth == 0 then none else some unmatched_braces
wrong_braces zero (b ∷ bytes) =
    if b == b'}'
    then some unmatched_closing_brace
    else if b == b'{'
    then wrong_braces 1 bytes
    else wrong_braces 0 bytes
wrong_braces (suc depth) (b ∷ bytes) =
    if b == b'}'
    then wrong_braces depth bytes
    else if b == b'{'
    then wrong_braces (suc (suc depth)) bytes
    else wrong_braces (suc depth) bytes

unfoldable pub validate_rtf : ℕ → List ℕ → Converted (List ℕ)
unfolding starts_with wrong_braces
validate_rtf max bytes = limited max (length bytes) (
    if starts_with rtf_mark bytes
    then elim (wrong_braces 0 bytes) [
      | none ↦ ok bytes
      | some reason ↦ err (format_conversion reason)
    ]
    else err (format_conversion invalid_rtf))

pub record Reader : Type 0 where
  pub skip_depth : Option ℤ
  pub group_depth : ℤ
  pub unicode_fallback_count : ℕ
  pub fallback_chars_to_skip : ℕ
  pub pending_high_surrogate : Option ℕ

abbrev pub new_reader : Reader
new_reader = record {
  skip_depth = none;
  group_depth = pos 0;
  unicode_fallback_count = 1;
  fallback_chars_to_skip = 0;
  pending_high_surrogate = none;
}

abbrev pub is_alpha : ℕ → Bool
is_alpha c = (leb b'a' c && leb c b'z') || (leb b'A' c && leb c b'Z')

abbrev pub is_digit : ℕ → Bool
is_digit c = leb b'0' c && leb c b'9'

-- The characters that pass a test, and the rest from the first one that does not.
unfoldable pub span : (ℕ → Bool) → Text → Text × Text
span p [] = ([], [])
span p (c ∷ s) = let rest = span p s in if p c then (c ∷ rest.0, rest.1) else ([], c ∷ s)

-- An optional character.
abbrev pub drop_one : ℕ → Text → Text
drop_one q [] = []
drop_one q (c ∷ s) = if c == q then s else c ∷ s

-- The parameter of a control word: an optional sign and digits, read as an `i32`.
abbrev pub negated : Option ℕ → Option ℤ
negated none = none
negated (some zero) = some (pos 0)
negated (some (suc n)) = some (negsuc n)

abbrev pub widened : Option ℕ → Option ℤ
widened none = none
widened (some n) = some (pos n)

unfoldable pub parameter : Text → Option ℤ × Text
unfolding span parse_unsigned
parameter [] = (none, [])
parameter (c ∷ s) =
    if c == b'-'
    then (negated (parse_unsigned 2147483648 (span is_digit s).0), (span is_digit s).1)
    else (widened (parse_unsigned 2147483647 (span is_digit (c ∷ s)).0), (span is_digit (c ∷ s)).1)

abbrev pub skip_destinations : List Text
skip_destinations = map codes (
    "fonttbl" ∷ "colortbl" ∷ "stylesheet" ∷ "info" ∷ "pict" ∷ "header" ∷ "footer" ∷ "footnote"
    ∷ "annotation" ∷ "field" ∷ "fldinst" ∷ "datafield" ∷ "docvar" ∷ "xe" ∷ "tc" ∷ "rxe" ∷ [])

-- `as i16 as u16`.
abbrev pub as_unit : ℤ → ℕ
as_unit (pos n) = n % 65536
as_unit (negsuc n) = 65535 - n % 65536

abbrev pub replacement : Option ℕ → Text
replacement none = []
replacement (some high) = 0xfffd ∷ []

abbrev pub joined_pair : Option ℕ → ℕ → Text
joined_pair none low = 0xfffd ∷ []
joined_pair (some high) low = join high low ∷ []

-- The unit of a `\u`.
unfoldable pub read_unit : Reader → ℕ → Text × Reader
read_unit r u =
    let rest = record r { fallback_chars_to_skip = r.unicode_fallback_count } in
    if is_high u
    then (replacement r.pending_high_surrogate, record rest { pending_high_surrogate = some u })
    else if is_low u
    then (joined_pair r.pending_high_surrogate u, record rest { pending_high_surrogate = none })
    else (
      replacement r.pending_high_surrogate ++ u ∷ [],
      record rest { pending_high_surrogate = none },
    )

-- `u8::from_str_radix` of at most two characters, which takes a plus sign.
abbrev pub hex_digit : ℕ → Option ℕ
hex_digit c =
    if is_digit c
    then some (c - b'0')
    else if leb b'a' c && leb c b'f'
    then some (c - b'a' + 10)
    else if leb b'A' c && leb c b'F'
    then some (c - b'A' + 10)
    else none

abbrev pub two_digits : Option ℕ → Option ℕ → Option ℕ
two_digits (some m) (some n) = some (m * 16 + n)
two_digits _ _ = none

unfoldable pub parse_hex : Text → Option ℕ
parse_hex (c ∷ []) = hex_digit c
parse_hex (c ∷ d ∷ []) = if c == b'+' then hex_digit d else two_digits (hex_digit c) (hex_digit d)
parse_hex _ = none

abbrev pub char_of_byte : Option ℕ → Text
char_of_byte none = []
char_of_byte (some b) = windows1252_to_char b ∷ []
