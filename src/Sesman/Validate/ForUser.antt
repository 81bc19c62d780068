-- ===== src/Sesman/Validate/ForUser.antt =====
-- `for_user` and the paths of src/sesman/state.rs. The user id that `uid_for_user` looks up is an argument.
use cheirizo.Prelude.{
  ℕ, Bool, if◌then◌else◌, Option, none, some, [], ◌∷◌, ◌++◌, map, Text, text_eq, ◌≤◌, ◌≡◌, ◌≢◌, ◌∙◌,
  sym, ap, arith,
}
use cheirizo.Prelude.Strings.{codes}
use cheirizo.Sesman.State.{SesmanConfig, ComponentConfig, unix_socket}
use cheirizo.Sesman.Scalars.{show_unsigned, parse_unsigned}
use cheirizo.Sesman.Scalars.Decimal.{parse-show}
use cheirizo.Prelude.Words.{u32_max}
use cheirizo.Sesman.Validate.{ConfigError, validate}

-- `Path::join` of a name that is not absolute, to a path that does not end in a slash.
abbrev pub join : Text → Text → Text
join path name = path ++ (b'/' ∷ name)

abbrev pub runtime_of : ℕ → Text
runtime_of uid = codes "/run/user/" ++ (show_unsigned uid ++ codes "/wrdp")

unfoldable pub for_component : Text → Text → ComponentConfig → ComponentConfig
for_component runtime log_dir c =
    let logged = record c { log_path = some (join log_dir (c.name ++ codes ".log")) } in
    if text_eq c.name (codes "wrdp-compositor")
    then record logged { readiness = unix_socket (join runtime (codes "wayland-0")) }
    else logged

-- The configuration before `validate`.
unfoldable pub user_config : SesmanConfig → Text → ℕ → SesmanConfig
unfolding for_component
user_config default user uid =
    let runtime = runtime_of uid in
    let log_dir = join runtime (codes "logs") in
    record default {
      user = user;
      xdg_runtime_dir = runtime;
      state_dir = codes "/run/wrdp/sesman/" ++ show_unsigned uid;
      log_dir = log_dir;
      cleanup_paths = join runtime (codes "wayland-0") ∷ join runtime (codes "wayland-0.lock") ∷ [];
      cleanup_globs = [];
      components = map (for_component runtime log_dir) default.components;
    }

pub data ForUser : Type 0 where
  built : SesmanConfig → ForUser
  unknown_user : ForUser
  refused : ConfigError → ForUser

abbrev pub if_accepted : SesmanConfig → Option ConfigError → ForUser
if_accepted c none = built c
if_accepted c (some e) = refused e

module _ (is_alphanumeric is_control : ℕ → Bool) where
  unfoldable pub for_user : SesmanConfig → Text → Option ℕ → ForUser
  unfolding user_config validate
  for_user default user none = unknown_user
  for_user default user (some uid) =
      let c = user_config default user uid in if_accepted c (validate is_alphanumeric is_control c)

unfoldable pub state_path : SesmanConfig → Text
state_path c = join c.state_dir (c.session_name ++ codes ".state.json")

unfoldable pub lock_path : SesmanConfig → Text
lock_path c = join c.state_dir (c.session_name ++ codes ".lock")

abbrev without_first : Text → Text
without_first [] = []
without_first (c ∷ s) = s

append-cancel : (p s t : Text) → p ++ s ≡ p ++ t → s ≡ t
append-cancel [] s t h = h
append-cancel (c ∷ p) s t h = append-cancel p s t (ap without_first h)

show_unsigned-injective :
    (m n max : ℕ) → m ≤ max → n ≤ max → show_unsigned m ≡ show_unsigned n → m ≡ n
show_unsigned-injective m n max hm hn h =
    let read : some m ≡ some n =
      sym (parse-show max m hm) ∙ ap (parse_unsigned max) h ∙ parse-show max n hn in
    ground arith

-- Users of different ids have different lifecycle registries, whatever the defaults and their names.
pub state_dir-apart :
    (default : SesmanConfig) (user other : Text) (uid other_uid : ℕ)
    → uid ≤ u32_max
    → other_uid ≤ u32_max
    → uid ≢ other_uid
    → (user_config default user uid).state_dir ≢ (user_config default other other_uid).state_dir
unfolding user_config
state_dir-apart default user other uid other_uid h k apart same = apart (
    show_unsigned-injective uid other_uid u32_max h k (
      append-cancel (codes "/run/wrdp/sesman/") (show_unsigned uid) (show_unsigned other_uid) same))
