-- ===== src/Sesman/Render/Steps.antt =====
-- What each written entry does to the state of the parser.
use cheirizo.Prelude.{
  ℕ, zero, suc, ◌+◌, ◌/◌, ◌%◌, ◌≤◌, ◌<◌, ◌≡◌, ◌∙◌, refl, arith, Bool, true, false, ◌&&◌, ◌||◌, leb,
  ltb, ◌==◌, none, List, [], ◌∷◌, ◌++◌, All, all, Text, Bool-cases, inl, inr,
}
use cheirizo.Prelude.Strings.{
  is_whitespace, Lacks, trim-Solid, trim, trim_start, trim_end, between, strip_prefix,
}
use cheirizo.Sesman.Scalars.{
  unquote_ini_scalar, show_unsigned, digits, is_empty, format_ini_list, format_ini_scalar,
  join_values,
}
use cheirizo.Sesman.Scalars.RoundTrip.{Unquoted, IsItem, unquote-format}
use cheirizo.Sesman.Ini.{IniState, ok, parse_line, apply_entry}
use cheirizo.Sesman.Render.{entry, header}
use cheirizo.Sesman.Render.Clean.{
  IsClean, IsRaw, Safe, raw-Solid, raw-IsClean, format-IsClean, format_list-IsClean,
}
use cheirizo.Sesman.Render.Lines.{IsKey, parse_entry, parse_header}

-- Lower-case ASCII letters, digits and the signs of section names.
abbrev pub is_plain : ℕ → Bool
is_plain c =
    (leb b'a' c && leb c b'z')
    || (leb b'0' c && leb c b'9')
    || c == b'_'
    || c == b':'
    || c == b'-'
    || c == b'.'

-- Upper-case ASCII letters, digits and underscores.
abbrev pub is_variable : ℕ → Bool
is_variable c = (leb b'A' c && leb c b'Z') || (leb b'0' c && leb c b'9') || c == b'_'

-- What is relied on of the two case mappings of the standard library.
pub record IsCasing (to_lowercase to_uppercase : Text → Text) : Type 0 where
  pub plain_kept : (s : Text) → all is_plain s ≡ true → to_lowercase s ≡ s
  pub variable_back : (s : Text) → all is_variable s ≡ true → to_uppercase (to_lowercase s) ≡ s

visible_no_space : (c : ℕ) → b'!' ≤ c → c < 0x7f → is_whitespace c ≡ false
unfolding is_whitespace
visible_no_space c lo hi = ground arith

plain_raw_char : (c : ℕ) → is_plain c ≡ true → Safe c × (is_whitespace c ≡ false)
plain_raw_char c h = (
  (ground arith, ground arith, ground arith, ground arith),
  visible_no_space c (ground arith) (ground arith),
)

variable_raw_char : (c : ℕ) → is_variable c ≡ true → Safe c × (is_whitespace c ≡ false)
variable_raw_char c h = (
  (ground arith, ground arith, ground arith, ground arith),
  visible_no_space c (ground arith) (ground arith),
)

pub plain-IsRaw : (s : Text) → all is_plain s ≡ true → IsRaw s
plain-IsRaw [] h = tt
plain-IsRaw (c ∷ s) h = (plain_raw_char c (ground arith), plain-IsRaw s (ground arith))

pub variable-IsRaw : (s : Text) → all is_variable s ≡ true → IsRaw s
variable-IsRaw [] h = tt
variable-IsRaw (c ∷ s) h = (variable_raw_char c (ground arith), variable-IsRaw s (ground arith))

plain_no_sign : (s : Text) → all is_plain s ≡ true → Lacks b'=' s
plain_no_sign [] h = tt
plain_no_sign (c ∷ s) h = (ground arith, plain_no_sign s (ground arith))

variable_no_sign : (s : Text) → all is_variable s ≡ true → Lacks b'=' s
variable_no_sign [] h = tt
variable_no_sign (c ∷ s) h = (ground arith, variable_no_sign s (ground arith))

plain-IsKey : (key : Text) → all is_plain key ≡ true → is_empty key ≡ false → IsKey key
plain-IsKey [] h ne = absurd (cc)
plain-IsKey (c ∷ key) h ne = (ground arith, plain-IsRaw (c ∷ key) h, plain_no_sign (c ∷ key) h)

variable-IsKey : (key : Text) → all is_variable key ≡ true → is_empty key ≡ false → IsKey key
variable-IsKey [] h ne = absurd (cc)
variable-IsKey (c ∷ key) h ne =
    (ground arith, variable-IsRaw (c ∷ key) h, variable_no_sign (c ∷ key) h)

between_other : (p q c : ℕ) (s : Text) → (c == p) ≡ false → between p q (c ∷ s) ≡ none
unfolding between strip_prefix
between_other p q c s h = ground arith

unquoted_kept :
    (s : Text)
    → trim s ≡ s
    → between b'"' b'"' s ≡ none
    → between b'\'' b'\'' s ≡ none
    → unquote_ini_scalar s ≡ s
unfolding unquote_ini_scalar
unquoted_kept s t a b = rw (t) (rw (a, b) refl)

-- A raw value stands for itself.
pub unquote_raw : (v : Text) → IsRaw v → unquote_ini_scalar v ≡ v
unquote_raw [] h = unfold unquote_ini_scalar trim trim_start trim_end between strip_prefix in refl
unquote_raw (c ∷ v) h =
    unquoted_kept (c ∷ v) (trim-Solid (c ∷ v) (raw-Solid (c ∷ v) h))
      (between_other b'"' b'"' c v h.0.0.0) (between_other b'\'' b'\'' c v h.0.0.1)

digits-IsRaw : (fuel n : ℕ) (out : Text) → IsRaw out → IsRaw (digits fuel n out)
unfolding digits
digits-IsRaw zero n out h = h
digits-IsRaw (suc fuel) n out h =
    let first : Safe (48 + n % 10) × (is_whitespace (48 + n % 10) ≡ false) =
      plain_raw_char (48 + n % 10) (ground arith) in
    elim (Bool-cases (ltb n 10)) [
      | inl small ↦ rw small (first, h)
      | inr large ↦ rw large (digits-IsRaw fuel (n / 10) ((48 + n % 10) ∷ out) (first, h))
    ]

pub show_unsigned-IsRaw : (n : ℕ) → IsRaw (show_unsigned n)
unfolding show_unsigned
show_unsigned-IsRaw n = digits-IsRaw (suc n) n [] tt

pub items-Unquoted : (vs : List Text) → All IsItem vs → All Unquoted vs
items-Unquoted [] h = tt
items-Unquoted (v ∷ vs) h = (h.0.0, items-Unquoted vs h.1)

-- A written list begins with a bracket, and so has no quotes to lose.
unquote_list :
    (vs : List Text)
    → All Unquoted vs
    → unquote_ini_scalar (format_ini_list vs) ≡ format_ini_list vs
unfolding format_ini_list
unquote_list vs h =
    let clean = format_list-IsClean vs h in
    unquoted_kept (format_ini_list vs) clean.trimmed
      (between_other b'"' b'"' b'[' (join_values vs ++ b']' ∷ []) refl)
      (between_other b'\'' b'\'' b'[' (join_values vs ++ b']' ∷ []) refl)

module _ (to_lowercase to_uppercase : Text → Text)
    (casing : IsCasing to_lowercase to_uppercase) where
  clean_step :
      (st st' : IniState) (key w : Text) (n : ℕ)
      → all is_plain key ≡ true
      → is_empty key ≡ false
      → IsClean w
      → apply_entry to_lowercase to_uppercase st key (unquote_ini_scalar w) n ≡ ok st'
      → parse_line to_lowercase to_uppercase st n (entry key w) ≡ ok st'
  clean_step st st' key w n plain ne clean e =
      parse_entry to_lowercase to_uppercase st n key w (plain-IsKey key plain ne) clean
      ∙ rw (casing.plain_kept key plain) e

  pub raw_step :
      (st st' : IniState) (key v : Text) (n : ℕ)
      → all is_plain key ≡ true
      → is_empty key ≡ false
      → IsRaw v
      → apply_entry to_lowercase to_uppercase st key v n ≡ ok st'
      → parse_line to_lowercase to_uppercase st n (entry key v) ≡ ok st'
  raw_step st st' key v n plain ne raw e =
      clean_step st st' key v n plain ne (raw-IsClean v raw) (rw (unquote_raw v raw) e)

  pub list_step :
      (st st' : IniState) (key : Text) (vs : List Text) (n : ℕ)
      → all is_plain key ≡ true
      → is_empty key ≡ false
      → All IsItem vs
      → apply_entry to_lowercase to_uppercase st key (format_ini_list vs) n ≡ ok st'
      → parse_line to_lowercase to_uppercase st n (entry key (format_ini_list vs)) ≡ ok st'
  list_step st st' key vs n plain ne items e =
      clean_step st st' key (format_ini_list vs) n plain ne
        (format_list-IsClean vs (items-Unquoted vs items))
        (rw (unquote_list vs (items-Unquoted vs items)) e)

  pub variable_step :
      (st st' : IniState) (key v : Text) (n : ℕ)
      → all is_variable key ≡ true
      → is_empty key ≡ false
      → Unquoted v
      → apply_entry to_lowercase to_uppercase st (to_lowercase key) v n ≡ ok st'
      → parse_line to_lowercase to_uppercase st n (entry key (format_ini_scalar v)) ≡ ok st'
  variable_step st st' key v n variable ne unquoted e =
      parse_entry to_lowercase to_uppercase st n key (format_ini_scalar v)
        (variable-IsKey key variable ne) (format-IsClean v unquoted)
      ∙ rw (unquote-format v unquoted) e

  pub header_step :
      (st : IniState) (name : Text) (n : ℕ)
      → all is_plain name ≡ true
      → parse_line to_lowercase to_uppercase st n (header name) ≡ ok (record st { section = name })
  header_step st name n plain =
      parse_header to_lowercase to_uppercase st n name (plain-IsRaw name plain)
      ∙ rw (casing.plain_kept name plain) refl
