-- ===== src/Clipboard/Sanitize.antt =====
-- The names of files and the texts that src/rdp/channels/clipboard/core/sanitize.rs cleans. The case
-- mapping of the standard library is a parameter. `len` counts the bytes of UTF-8.
pub mod Names
pub mod Texts
pub mod Windows
use cheirizo.Prelude.{
  ℕ, ◌+◌, ◌-◌, Bool, true, false, not, ◌&&◌, ◌||◌, ltb, ◌==◌, if◌then◌else◌, Option, none, some,
  List, [], ◌∷◌, ◌++◌, map, retain, take, Text, text_eq, any,
}
use cheirizo.Prelude.Strings.{codes, contains, split}

-- `char::len_utf8`, and `str::len`.
abbrev pub len_utf8 : ℕ → ℕ
len_utf8 c = if ltb c 0x80 then 1 else if ltb c 0x800 then 2 else if ltb c 0x10000 then 3 else 4

abbrev pub byte_len : Text → ℕ
byte_len [] = 0
byte_len (c ∷ s) = len_utf8 c + byte_len s

-- `char::is_control`.
abbrev pub is_control : ℕ → Bool
is_control c = ltb c 32 || (not (ltb c 127) && ltb c 160)

abbrev pub windows_invalid_chars : Text
windows_invalid_chars = codes "\\/:*?\"<>|"

abbrev pub windows_reserved_names : List Text
windows_reserved_names = map codes (
    "CON" ∷ "PRN" ∷ "AUX" ∷ "NUL" ∷ "COM1" ∷ "COM2" ∷ "COM3" ∷ "COM4" ∷ "COM5" ∷ "COM6" ∷ "COM7"
    ∷ "COM8" ∷ "COM9" ∷ "LPT1" ∷ "LPT2" ∷ "LPT3" ∷ "LPT4" ∷ "LPT5" ∷ "LPT6" ∷ "LPT7" ∷ "LPT8"
    ∷ "LPT9" ∷ [])

abbrev pub unnamed : Text
unnamed = codes "_unnamed_"

abbrev pub max_filename_len : ℕ
max_filename_len = 255

unfoldable pub windows_char : ℕ → ℕ
unfolding contains
windows_char c = if contains c windows_invalid_chars || is_control c then b'_' else c

abbrev pub keep_end : ℕ → Text → Text
keep_end c [] = if c == b'.' || c == b' ' then [] else c ∷ []
keep_end c (d ∷ s) = c ∷ d ∷ s

-- The loop that pops dots and spaces off the end.
unfoldable pub strip_trailing : Text → Text
strip_trailing [] = []
strip_trailing (c ∷ s) = keep_end c (strip_trailing s)

abbrev pub with_front : ℕ → Option (Text × Text) → Option (Text × Text)
with_front c (some (base, ext)) = some (c ∷ base, ext)
with_front c none = none

-- `rfind('.')`: the text before the last dot, and from it on.
unfoldable pub last_dot : Text → Option (Text × Text)
last_dot [] = none
last_dot (c ∷ s) = elim (last_dot s) [
  | some (base, ext) ↦ some (c ∷ base, ext)
  | none ↦ if c == b'.' then some ([], c ∷ s) else none
]

unfoldable pub cut_name : Option (Text × Text) → Text → Text
cut_name none s = take max_filename_len s
cut_name (some (base, ext)) s =
    if ltb (byte_len ext) (max_filename_len - 1)
    then take (max_filename_len - byte_len ext) base ++ ext
    else take max_filename_len s

unfoldable pub truncate_name : Text → Text
unfolding last_dot cut_name
truncate_name s = if ltb max_filename_len (byte_len s) then cut_name (last_dot s) s else s

-- `split('.').next()`.
unfoldable pub first_part : Text → Text
unfolding split
first_part s = elim (split b'.' s) [ [] ↦ [] | p ∷ ps ↦ p ]

module _ (to_uppercase : Text → Text) where
  unfoldable pub is_reserved : Text → Bool
  unfolding first_part text_eq
  is_reserved s = any (text_eq (first_part (to_uppercase s))) windows_reserved_names

  unfoldable pub finish_windows : Text → Text
  unfolding is_reserved truncate_name
  finish_windows [] = unnamed
  finish_windows (c ∷ s) = truncate_name (if is_reserved (c ∷ s) then b'_' ∷ c ∷ s else c ∷ s)

  unfoldable pub sanitize_filename_for_windows : Text → Text
  unfolding windows_char strip_trailing finish_windows
  sanitize_filename_for_windows [] = unnamed
  sanitize_filename_for_windows (c ∷ s) = finish_windows (strip_trailing (map windows_char (c ∷ s)))

unfoldable pub linux_char : ℕ → ℕ
linux_char c = if c == b'/' || c == 0 || c == b'\\' then b'_' else c

unfoldable pub guard_dash : Text → Text
guard_dash [] = []
guard_dash (c ∷ s) = if c == b'-' then b'_' ∷ c ∷ s else c ∷ s

unfoldable pub is_dots : Text → Bool
unfolding text_eq
is_dots s = text_eq s [] || text_eq s (codes ".") || text_eq s (codes "..")

unfoldable pub sanitize_filename_for_linux : Text → Text
unfolding linux_char guard_dash is_dots truncate_name
sanitize_filename_for_linux [] = unnamed
sanitize_filename_for_linux (c ∷ s) =
    let name = guard_dash (map linux_char (c ∷ s)) in
    if is_dots name then unnamed else truncate_name name

-- `replace("\r\n", "\n")` and `replace('\n', "\r\n")`.
unfoldable pub convert_line_endings_to_unix : Text → Text
convert_line_endings_to_unix [] = []
convert_line_endings_to_unix (c ∷ []) = c ∷ []
convert_line_endings_to_unix (c ∷ d ∷ s) =
    let rest = convert_line_endings_to_unix (d ∷ s) in
    if c == b'\r' && d == b'\n' then rest else c ∷ rest

unfoldable pub add_returns : Text → Text
add_returns [] = []
add_returns (c ∷ s) = if c == b'\n' then b'\r' ∷ b'\n' ∷ add_returns s else c ∷ add_returns s

unfoldable pub convert_line_endings_to_windows : Text → Text
unfolding convert_line_endings_to_unix add_returns
convert_line_endings_to_windows s = add_returns (convert_line_endings_to_unix s)

unfoldable pub sanitize_text_for_windows : Text → Text
unfolding convert_line_endings_to_windows
sanitize_text_for_windows s = retain (λ c. not (c == 0)) (convert_line_endings_to_windows s)

unfoldable pub sanitize_text_for_linux : Text → Text
unfolding convert_line_endings_to_unix
sanitize_text_for_linux s = retain (λ c. not (c == 0)) (convert_line_endings_to_unix s)
