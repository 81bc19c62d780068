-- ===== src/Sesman/Scalars.antt =====
-- The values of the INI file in src/sesman/state.rs: how a line is cleaned, a value is read and a value
-- is written. Texts are code points.
pub mod RoundTrip
pub mod Decimal
use cheirizo.Prelude.{
  ℕ, zero, suc, ◌+◌, ◌-◌, ◌*◌, ◌/◌, ◌%◌, Bool, true, false, not, ◌&&◌, ◌||◌, ltb, leb, ◌==◌,
  if◌then◌else◌, Option, none, some, List, [], ◌∷◌, ◌++◌, map, Text, text_eq,
}
use cheirizo.Prelude.Strings.{
  codes, is_whitespace, trim, strip_prefix, between, split, contains, any_whitespace,
}

-- The scan of `strip_ini_comment`: whether it is inside quotes, and whether it is at the start of the
-- line or behind white space.
unfoldable pub strip_from : Bool → Bool → Bool → Text → Text
strip_from in_single in_double at_break [] = []
strip_from in_single in_double at_break (c ∷ s) =
    let single = if c == b'\'' && not in_double then not in_single else in_single in
    let double = if c == b'"' && not in_single then not in_double else in_double in
    let rest = c ∷ strip_from single double (is_whitespace c) s in
    if (c == b'#' || c == b';') && not in_single && not in_double && at_break then [] else rest

unfoldable pub strip_ini_comment : Text → Text
unfolding strip_from
strip_ini_comment line = strip_from false false true line

abbrev pub or_whole : Option Text → Text → Text
or_whole none whole = whole
or_whole (some part) whole = part

abbrev pub or_else : Option Text → Option Text → Option Text
or_else none other = other
or_else (some part) other = some part

unfoldable pub unquote_ini_scalar : Text → Text
unquote_ini_scalar value =
    let v = trim value in or_whole (or_else (between b'"' b'"' v) (between b'\'' b'\'' v)) v

-- The items of a list that are not blank, each trimmed and unquoted.
unfoldable pub list_items : List Text → List Text
list_items [] = []
list_items (item ∷ items) = elim (trim item) [
  | [] ↦ list_items items
  | c ∷ s ↦ unquote_ini_scalar (c ∷ s) ∷ list_items items
]

unfoldable pub parse_ini_list : Text → List Text
unfolding list_items unquote_ini_scalar
parse_ini_list value = list_items (split b',' (or_whole (between b'[' b']' (trim value)) value))

-- `replace('"', "\\\"")`.
unfoldable pub escape_quotes : Text → Text
escape_quotes [] = []
escape_quotes (c ∷ s) = if c == b'"' then b'\\' ∷ b'"' ∷ escape_quotes s else c ∷ escape_quotes s

abbrev pub is_empty : Text → Bool
is_empty [] = true
is_empty (c ∷ s) = false

abbrev pub needs_quotes : Text → Bool
needs_quotes v =
    is_empty v || contains b',' v || contains b'#' v || contains b';' v || any_whitespace v

unfoldable pub format_ini_scalar : Text → Text
unfolding escape_quotes
format_ini_scalar v = if needs_quotes v then b'"' ∷ (escape_quotes v ++ b'"' ∷ []) else v

-- `join(", ")` of the written values.
unfoldable pub join_values : List Text → Text
unfolding format_ini_scalar
join_values [] = []
join_values (v ∷ []) = format_ini_scalar v
join_values (v ∷ w ∷ vs) = format_ini_scalar v ++ (b',' ∷ b' ' ∷ join_values (w ∷ vs))

unfoldable pub format_ini_list : List Text → Text
unfolding join_values
format_ini_list vs = b'[' ∷ (join_values vs ++ b']' ∷ [])

-- `parse` of an unsigned integer: an optional plus sign and digits, up to the type's maximum.
unfoldable pub scan_digits : ℕ → Text → ℕ → Option ℕ
scan_digits max [] n = some n
scan_digits max (c ∷ s) n =
    let n' = n * 10 + (c - b'0') in
    let rest = scan_digits max s n' in if leb b'0' c && leb c b'9' && leb n' max then rest else none

unfoldable pub parse_unsigned : ℕ → Text → Option ℕ
unfolding scan_digits
parse_unsigned max [] = none
parse_unsigned max (c ∷ []) = if c == b'+' then none else scan_digits max (c ∷ []) 0
parse_unsigned max (c ∷ d ∷ s) =
    if c == b'+' then scan_digits max (d ∷ s) 0 else scan_digits max (c ∷ d ∷ s) 0

unfoldable pub parse_bool : Text → Option Bool
parse_bool s =
    if text_eq s (codes "true")
    then some true
    else if text_eq s (codes "false")
    then some false
    else none

abbrev pub show_bool : Bool → Text
show_bool true = codes "true"
show_bool false = codes "false"

-- `Display` of an unsigned integer: the digits of as many rounds as the number has units, and one, are
-- enough.
unfoldable pub digits : ℕ → ℕ → Text → Text
digits zero n out = out
digits (suc fuel) n out =
    let out' = (b'0' + n % 10) ∷ out in
    let rest = digits fuel (n / 10) out' in if ltb n 10 then out' else rest

unfoldable pub show_unsigned : ℕ → Text
unfolding digits
show_unsigned n = digits (suc n) n []

-- An empty path is no path.
unfoldable pub nonempty_path : Text → Option Text
nonempty_path value = if is_empty (trim value) then none else some value
