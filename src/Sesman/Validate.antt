-- ===== src/Sesman/Validate.antt =====
-- `load`, `apply_runtime_defaults` and `validate` of src/sesman/state.rs. The default configuration, which
-- reads the process's environment, is an argument, and so is what reading the file gives; the character classes
-- and case mappings of the standard library are parameters.
pub mod Accepted
pub mod ForUser
use cheirizo.Prelude.{
  ℕ, Bool, true, false, not, ◌&&◌, ◌||◌, ◌==◌, if◌then◌else◌, Option, none, some, List, [], ◌∷◌,
  any, Text, text_eq,
}
use cheirizo.Prelude.Strings.{trim}
use cheirizo.Auth.Username.{UsernameError, validate_username}
use cheirizo.Sesman.State.{SesmanConfig, ComponentConfig}
use cheirizo.Sesman.Scalars.{is_empty}
use cheirizo.Sesman.Ini.{IniError, Result, ok, err, parse_sesman_ini}

pub data ConfigError : Type 0 where
  empty_session_name no_user relative_path no_component empty_name : ConfigError
  invalid_user : UsernameError → ConfigError
  duplicate_name empty_command : Text → ConfigError

-- `Path::is_absolute`.
abbrev pub is_absolute : Text → Bool
is_absolute [] = false
is_absolute (c ∷ s) = c == b'/'

abbrev pub or_default {ℓ} : {A : Type ℓ} → List A → List A → List A
or_default [] default = default
or_default (x ∷ xs) default = x ∷ xs

unfoldable pub apply_runtime_defaults : SesmanConfig → SesmanConfig → SesmanConfig
apply_runtime_defaults default c = record c {
  environment = or_default c.environment default.environment;
  cleanup_paths = or_default c.cleanup_paths default.cleanup_paths;
  cleanup_globs = or_default c.cleanup_globs default.cleanup_globs;
  components = or_default c.components default.components;
}

-- The loop over the components, with the names seen so far; `none` is `Ok`.
unfoldable pub validate_components : List Text → List ComponentConfig → Option ConfigError
validate_components seen [] = none
validate_components seen (c ∷ cs) =
    let rest = validate_components (c.name ∷ seen) cs in
    if is_empty (trim c.name)
    then some empty_name
    else if any (λ s. text_eq s c.name) seen
    then some (duplicate_name c.name)
    else if is_empty (trim c.command)
    then some (empty_command c.name)
    else rest

abbrev pub is_none : List ComponentConfig → Bool
is_none [] = true
is_none (c ∷ cs) = false

module _ (is_alphanumeric is_control : ℕ → Bool) where
  -- Behind the check of the user name.
  unfoldable pub validate_rest : SesmanConfig → Option ConfigError
  unfolding validate_components
  validate_rest c =
      if not (is_absolute c.xdg_runtime_dir)
        || not (is_absolute c.state_dir)
        || not (is_absolute c.log_dir)
      then some relative_path
      else if is_none c.components
      then some no_component
      else validate_components [] c.components

  abbrev pub checked_user : Option UsernameError → Option ConfigError → Option ConfigError
  checked_user none rest = rest
  checked_user (some e) rest = some (invalid_user e)

  unfoldable pub validate : SesmanConfig → Option ConfigError
  unfolding validate_rest
  validate c =
      if is_empty (trim c.session_name)
      then some empty_session_name
      else if is_empty (trim c.user)
      then some no_user
      else checked_user (validate_username is_alphanumeric is_control c.user) (validate_rest c)

-- What reading the file gives.
pub data Read : Type 0 where
  content : Text → Read
  not_found read_failed : Read

pub data Load : Type 0 where
  loaded : SesmanConfig → Load
  unparsed : IniError → Load
  invalid : ConfigError → Load
  unreadable : Load

abbrev pub if_valid : SesmanConfig → Option ConfigError → Load
if_valid c none = loaded c
if_valid c (some e) = invalid e

module _ (is_alphanumeric is_control : ℕ → Bool) (to_lowercase to_uppercase : Text → Text) where
  abbrev pub load_parsed : SesmanConfig → Result SesmanConfig → Load
  load_parsed default (err e) = unparsed e
  load_parsed default (ok c) =
      if_valid (apply_runtime_defaults default c)
        (validate is_alphanumeric is_control (apply_runtime_defaults default c))

  -- Over the default configuration; `none` is no path.
  unfoldable pub load : SesmanConfig → Option Read → Load
  unfolding validate apply_runtime_defaults parse_sesman_ini
  load default none = loaded default
  load default (some (content text)) =
      load_parsed default (parse_sesman_ini to_lowercase to_uppercase default text)
  load default (some not_found) = loaded default
  load default (some read_failed) = unreadable
