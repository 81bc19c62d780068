-- ===== src/Auth/Username.antt =====
-- src/auth/username.rs, over the code points of a name. The character classes of the standard
-- library are parameters.
pub mod Local
use cheirizo.Prelude.{
  ℕ, ◌+◌, Bool, true, false, not, ◌&&◌, ◌||◌, ltb, leb, ◌==◌, if◌then◌else◌, Option, none, some,
  List, [], ◌∷◌, all, any,
}

abbrev pub Name : Type 0
Name = List ℕ

abbrev pub backslash : ℕ
backslash = 92

abbrev pub at_sign : ℕ
at_sign = 64

-- `str::len`: the bytes of the UTF-8 form.
abbrev pub utf8_len : Name → ℕ
utf8_len [] = 0
utf8_len (c ∷ s) =
    (if ltb c 0x80 then 1 else if ltb c 0x800 then 2 else if ltb c 0x10000 then 3 else 4)
    + utf8_len s

-- The second part of `rsplit_once`.
unfoldable pub after_last : ℕ → Name → Option Name
after_last sep [] = none
after_last sep (c ∷ s) =
    let rest = after_last sep s in
    elim rest [ some t ↦ some t | none ↦ if c == sep then some s else none ]

-- The first part of `split_once`.
unfoldable pub before_first : ℕ → Name → Option Name
before_first sep [] = none
before_first sep (c ∷ s) =
    let rest = before_first sep s in
    if c == sep then some [] else elim rest [ some t ↦ some (c ∷ t) | none ↦ none ]

abbrev pub or_whole : Option Name → Name → Name
or_whole none whole = whole
or_whole (some part) whole = part

unfoldable pub normalize_local_account_name : Name → Name
unfolding after_last before_first
normalize_local_account_name username =
    let without_domain = or_whole (after_last backslash username) username in
    or_whole (before_first at_sign without_domain) without_domain

pub data UsernameError : Type 0 where
  empty too_long control_characters unsupported_punctuation no_local_account : UsernameError

abbrev pub is_empty : Name → Bool
is_empty [] = true
is_empty (c ∷ s) = false

module _ (is_alphanumeric : ℕ → Bool) where
  -- A letter or digit, or one of `_`, `-` and `.`.
  abbrev pub is_account_char : ℕ → Bool
  is_account_char c = is_alphanumeric c || c == b'_' || c == b'-' || c == b'.'

  abbrev pub is_allowed : ℕ → Bool
  is_allowed c = is_account_char c || c == backslash || c == at_sign

module _ (is_alphanumeric is_control : ℕ → Bool) where
  -- `none` is `Ok`.
  unfoldable pub validate_username : Name → Option UsernameError
  validate_username username =
      if is_empty username
      then some empty
      else if ltb 255 (utf8_len username)
      then some too_long
      else if any (λ c. c == 0) username || any is_control username
      then some control_characters
      else if not (all (is_allowed is_alphanumeric) username)
      then some unsupported_punctuation
      else if is_empty (normalize_local_account_name username)
      then some no_local_account
      else none
