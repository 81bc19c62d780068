-- ===== src/Sesman/Ini.antt =====
-- The INI file of src/sesman/state.rs: `parse_sesman_ini` and `render_sesman_ini`. The case mappings of
-- the standard library are parameters; a `match` on a text is a chain of comparisons.
use cheirizo.Prelude.{
  ℕ, zero, suc, ◌+◌, Bool, true, false, if◌then◌else◌, Option, none, some, List, [], ◌∷◌, Text,
  text_eq, length,
}
use cheirizo.Prelude.Words.{u32_max, u64_max}
use cheirizo.Prelude.Sorted.{find, put}
use cheirizo.Prelude.Strings.{codes, trim, between, split_once, lines}
use cheirizo.Sesman.State.{
  SesmanConfig, ComponentConfig, ReadinessCheck, process_alive_check, no_check, unix_socket,
}
use cheirizo.Sesman.Scalars.{
  strip_ini_comment, unquote_ini_scalar, parse_ini_list, parse_unsigned, parse_bool, nonempty_path,
  is_empty,
}

pub data IniError : Type 0 where
  expected_key_value : ℕ → IniError
  unknown_section : Text → ℕ → IniError
  unknown_key : Text → ℕ → IniError
  invalid_value : Text → ℕ → IniError

pub data Result {ℓ} (A : Type ℓ) : Type ℓ where
  ok : A → Result A
  err : IniError → Result A

abbrev pub then_ok {ℓ κ} : {A : Type ℓ} {B : Type κ} → Option A → IniError → (A → B) → Result B
then_ok none e f = err e
then_ok (some a) e f = ok (f a)

unfoldable pub apply_sesman_global : SesmanConfig → Text → Text → ℕ → Result SesmanConfig
apply_sesman_global c key value n =
    if text_eq key (codes "session_name")
    then ok (record c { session_name = value })
    else if text_eq key (codes "user")
    then ok (record c { user = value })
    else if text_eq key (codes "xdg_runtime_dir")
    then ok (record c { xdg_runtime_dir = value })
    else if text_eq key (codes "state_dir")
    then ok (record c { state_dir = value })
    else if text_eq key (codes "log_dir")
    then ok (record c { log_dir = value })
    else if text_eq key (codes "start_timeout_ms")
    then then_ok (parse_unsigned u64_max value) (invalid_value key n)
        (λ ms. record c { start_timeout_ms = ms })
    else if text_eq key (codes "stop_timeout_ms")
    then then_ok (parse_unsigned u64_max value) (invalid_value key n)
        (λ ms. record c { stop_timeout_ms = ms })
    else if text_eq key (codes "idle_timeout_ms")
    then then_ok (parse_unsigned u64_max value) (invalid_value key n)
        (λ ms. record c { idle_timeout_ms = ms })
    else err (unknown_key key n)

unfoldable pub apply_size : SesmanConfig → Text → Text → ℕ → Result SesmanConfig
apply_size c key value n =
    if text_eq key (codes "width")
    then then_ok (parse_unsigned u32_max value) (invalid_value key n)
        (λ w. record c { default_size = record { width = w; height = c.default_size.height } })
    else if text_eq key (codes "height")
    then then_ok (parse_unsigned u32_max value) (invalid_value key n)
        (λ h. record c { default_size = record { width = c.default_size.width; height = h } })
    else err (unknown_key key n)

unfoldable pub apply_cleanup : SesmanConfig → Text → Text → ℕ → Result SesmanConfig
apply_cleanup c key value n =
    if text_eq key (codes "paths")
    then ok (record c { cleanup_paths = parse_ini_list value })
    else if text_eq key (codes "globs")
    then ok (record c { cleanup_globs = parse_ini_list value })
    else err (unknown_key key n)

unfoldable pub empty_component : Text → ComponentConfig
empty_component name = record {
  name = name;
  command = [];
  args = [];
  env = [];
  working_dir = none;
  log_path = none;
  readiness = process_alive_check;
  required = true;
  startup_delay_ms = 0;
}

unfoldable pub readiness_of : Text → Option ReadinessCheck
readiness_of value =
    if text_eq value (codes "process_alive")
    then some process_alive_check
    else if text_eq value (codes "none")
    then some no_check
    else if text_eq value (codes "unix_socket")
    then some (unix_socket [])
    else none

unfoldable pub apply_component_key : ComponentConfig → Text → Text → ℕ → Result ComponentConfig
unfolding readiness_of
apply_component_key c key value n =
    if text_eq key (codes "command")
    then ok (record c { command = value })
    else if text_eq key (codes "args")
    then ok (record c { args = parse_ini_list value })
    else if text_eq key (codes "working_dir")
    then ok (record c { working_dir = nonempty_path value })
    else if text_eq key (codes "log_path")
    then ok (record c { log_path = nonempty_path value })
    else if text_eq key (codes "readiness")
    then then_ok (readiness_of value) (invalid_value key n) (λ r. record c { readiness = r })
    else if text_eq key (codes "readiness_path")
    then ok (record c { readiness = unix_socket value })
    else if text_eq key (codes "required")
    then then_ok (parse_bool value) (invalid_value key n) (λ b. record c { required = b })
    else if text_eq key (codes "startup_delay_ms")
    then then_ok (parse_unsigned u64_max value) (invalid_value key n)
        (λ ms. record c { startup_delay_ms = ms })
    else err (unknown_key key n)

-- What stands behind a prefix.
unfoldable pub behind : Text → Text → Option Text
behind [] s = some s
behind (p ∷ ps) [] = none
behind (p ∷ ps) (c ∷ s) = if text_eq (p ∷ []) (c ∷ []) then behind ps s else none

-- `trim_start_matches`: the prefix is taken off as often as it stands there; each time the text is
-- shorter, so as many rounds as it has characters are enough.
unfoldable pub trim_start_matches : ℕ → Text → Text → Text
trim_start_matches zero prefix s = s
trim_start_matches (suc fuel) prefix s = elim (behind prefix s) [
  | none ↦ s
  | some rest ↦ trim_start_matches fuel prefix rest
]

unfoldable pub starts_with : Text → Text → Bool
unfolding behind
starts_with prefix s = elim (behind prefix s) [ none ↦ false | some rest ↦ true ]

pub record IniState : Type 0 where
  pub config : SesmanConfig
  pub section : Text
  pub components : List (Text × ComponentConfig)

-- `entry(name).or_insert_with(empty_component)`.
unfoldable pub component_entry : Text → List (Text × ComponentConfig) → ComponentConfig
component_entry name m = elim (find name m) [ none ↦ empty_component name | some c ↦ c ]

abbrev pub map_result {ℓ κ} : {A : Type ℓ} {B : Type κ} → (A → B) → Result A → Result B
map_result f (ok a) = ok (f a)
map_result f (err e) = err e

abbrev pub with_config : IniState → SesmanConfig → IniState
with_config st c = record st { config = c }

abbrev pub with_component : IniState → Text → ComponentConfig → IniState
with_component st name c = record st { components = put name c st.components }

abbrev pub with_env : SesmanConfig → Text → Text → SesmanConfig
with_env c key value = record c { environment = put key value c.environment }

abbrev pub component_with_env : ComponentConfig → Text → Text → ComponentConfig
component_with_env c key value = record c { env = put key value c.env }

-- The component that a section is about.
unfoldable pub section_name : Text → IniState → Text
unfolding trim_start_matches
section_name prefix st = trim_start_matches (length st.section) prefix st.section

unfoldable pub set_in_component : IniState → Text → Text → Text → ℕ → Result IniState
unfolding component_entry apply_component_key
set_in_component st name key value n =
    map_result (with_component st name)
      (apply_component_key (component_entry name st.components) key value n)

unfoldable pub set_component_env : IniState → Text → Text → Text → IniState
unfolding component_entry
set_component_env st name key value =
    with_component st name (component_with_env (component_entry name st.components) key value)

module _ (to_lowercase to_uppercase : Text → Text) where
  -- The `match` on the section.
  unfoldable pub apply_entry : IniState → Text → Text → ℕ → Result IniState
  unfolding apply_sesman_global apply_size apply_cleanup apply_component_key component_entry
      starts_with trim_start_matches
  apply_entry st key value n =
      if text_eq st.section (codes "globals")
      then map_result (with_config st) (apply_sesman_global st.config key value n)
      else if text_eq st.section (codes "default_size")
      then map_result (with_config st) (apply_size st.config key value n)
      else if text_eq st.section (codes "environment")
      then ok (with_config st (with_env st.config (to_uppercase key) value))
      else if text_eq st.section (codes "cleanup")
      then map_result (with_config st) (apply_cleanup st.config key value n)
      else if starts_with (codes "component:") st.section
      then set_in_component st (section_name (codes "component:") st) key value n
      else if starts_with (codes "component_env:") st.section
      then ok
          (set_component_env st (section_name (codes "component_env:") st) (to_uppercase key) value)
      else err (unknown_section st.section n)

  -- One round of the loop over the lines, on the line without its comment.
  unfoldable pub parse_stripped : IniState → ℕ → Text → Result IniState
  parse_stripped st n line = if is_empty line then ok st else elim (between b'[' b']' line) [
    | some name ↦ ok (record st { section = to_lowercase (trim name) })
    | none ↦ elim (split_once b'=' line) [
      | none ↦ err (expected_key_value n)
      | some (key, value) ↦
          apply_entry st (to_lowercase (trim key)) (unquote_ini_scalar (trim value)) n
    ]
  ]

  unfoldable pub parse_line : IniState → ℕ → Text → Result IniState
  parse_line st n raw = parse_stripped st n (trim (strip_ini_comment raw))

  unfoldable pub parse_lines : IniState → ℕ → List Text → Result IniState
  parse_lines st n [] = ok st
  parse_lines st n (line ∷ rest) = elim (parse_line st n line) [
    | err e ↦ err e
    | ok st' ↦ parse_lines st' (n + 1) rest
  ]

  abbrev pub values : List (Text × ComponentConfig) → List ComponentConfig
  values [] = []
  values ((k, c) ∷ m) = c ∷ values m

  abbrev pub finished : IniState → SesmanConfig
  finished st = elim st.components [
    | [] ↦ st.config
    | e ∷ m ↦ record st.config { components = values (e ∷ m) }
  ]

  -- Over the default configuration and the content of the file.
  unfoldable pub parse_sesman_ini : SesmanConfig → Text → Result SesmanConfig
  unfolding parse_stripped parse_line parse_lines lines strip_ini_comment unquote_ini_scalar
      apply_entry
  parse_sesman_ini default_config content = map_result finished (
      parse_lines (record { config = default_config; section = codes "globals"; components = [] }) 1
        (lines content))
