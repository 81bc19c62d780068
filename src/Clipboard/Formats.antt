-- ===== src/Clipboard/Formats.antt =====
-- The conversions of the formats of src/rdp/channels/clipboard/core/formats.rs: the errors and the
-- texts here, the code pages, the file descriptors and RTF in the children. A
-- text is its code points, data its bytes; the bytes of the UTF-8 of a text are counted.
mod Codepages
pub mod RoundTrip
pub mod Descriptor
pub mod Rtf
use cheirizo.Prelude.{
  ℕ, ◌%◌, Bool, ltb, ◌==◌, if◌then◌else◌, Option, none, some, List, [], ◌∷◌, ◌++◌, length, map,
  Text,
}
use cheirizo.Prelude.Strings.{strip_suffix}
use cheirizo.Prelude.Utf16.{encode_utf16, from_utf16, unit_bytes, units}
use cheirizo.Clipboard.Sanitize.{byte_len}
unfoldable pub use Codepages.*

-- What a `FormatConversion` says.
pub data Reason : Type 0 where
  no_file_uris hdrop_too_small invalid_offset : Reason
  invalid_rtf unmatched_closing_brace unmatched_braces : Reason
  descriptor_too_small no_count list_too_small no_metadata invalid_filename : Reason

pub data FormatError : Type 0 where
  format_conversion : Reason → FormatError
  invalid_utf8 invalid_utf16 : FormatError
  data_size_exceeded : ℕ → ℕ → FormatError

pub data Converted {ℓ} (A : Type ℓ) : Type ℓ where
  ok : A → Converted A
  err : FormatError → Converted A

-- `?`.
abbrev pub and_then {ℓ κ} :
    {A : Type ℓ} {B : Type κ} → Converted A → (A → Converted B) → Converted B
and_then (ok a) f = f a
and_then (err e) f = err e

abbrev pub ok_or {ℓ} : {A : Type ℓ} → FormatError → Option A → Converted A
ok_or e none = err e
ok_or e (some a) = ok a

-- The check of a size against `max_size`.
abbrev pub limited {ℓ} : {A : Type ℓ} → ℕ → ℕ → Converted A → Converted A
limited max size result = if ltb max size then err (data_size_exceeded size max) else result

unfoldable pub text_to_unicode : ℕ → Text → Converted (List ℕ)
unfolding encode_utf16 unit_bytes
text_to_unicode max text =
    limited max (byte_len text) (ok (unit_bytes (encode_utf16 text) ++ 0 ∷ 0 ∷ []))

-- A null character at the end goes.
unfoldable pub drop_terminator : List ℕ → List ℕ
unfolding strip_suffix
drop_terminator us = elim (strip_suffix 0 us) [ none ↦ us | some rest ↦ rest ]

unfoldable pub unicode_to_text : ℕ → List ℕ → Converted Text
unfolding units drop_terminator from_utf16
unicode_to_text max bytes = limited max (length bytes) (
    if length bytes % 2 == 0
    then ok_or invalid_utf16 (from_utf16 (drop_terminator (units bytes)))
    else err invalid_utf16)

-- `text_to_ansi` and `text_to_oem`, and back, by the functions on characters.
unfoldable pub text_to_page : (ℕ → ℕ) → ℕ → Text → Converted (List ℕ)
text_to_page to_byte max text = limited max (byte_len text) (ok (map to_byte text ++ 0 ∷ []))

unfoldable pub page_to_text : (ℕ → ℕ) → ℕ → List ℕ → Converted Text
unfolding drop_terminator
page_to_text to_char max bytes =
    limited max (length bytes) (ok (map to_char (drop_terminator bytes)))

unfoldable pub text_to_ansi : ℕ → Text → Converted (List ℕ)
unfolding text_to_page char_to_windows1252
text_to_ansi = text_to_page char_to_windows1252

unfoldable pub ansi_to_text : ℕ → List ℕ → Converted Text
unfolding page_to_text windows1252_to_char
ansi_to_text = page_to_text windows1252_to_char

unfoldable pub text_to_oem : ℕ → Text → Converted (List ℕ)
unfolding text_to_page char_to_cp437
text_to_oem = text_to_page char_to_cp437

unfoldable pub oem_to_text : ℕ → List ℕ → Converted Text
unfolding page_to_text cp437_to_char
oem_to_text = page_to_text cp437_to_char
