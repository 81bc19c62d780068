-- ===== src/Sesman/IniTests.antt =====
-- The INI file at a small configuration.
use cheirizo.Prelude.{
  ℕ, ◌+◌, ◌-◌, ◌≡◌, refl, arith, Bool, true, false, not, ◌&&◌, leb, ◌==◌, if◌then◌else◌, none, some,
  [], ◌∷◌, map, all, Text, text_eq,
}
use cheirizo.Prelude.Sorted.{text_lt, put}
use cheirizo.Prelude.Strings.{codes, is_whitespace}
use cheirizo.Sesman.State.{SesmanConfig, ComponentConfig, unix_socket}
use cheirizo.Sesman.Ini.{ok, behind, parse_sesman_ini}
use cheirizo.Sesman.Render.{render_sesman_ini}
use cheirizo.Sesman.Render.Clean.{IsRaw}
use cheirizo.Sesman.Render.Steps.{is_plain, is_variable, IsCasing}
use cheirizo.Sesman.Render.Sections.{put_all, IsGlobal}
use cheirizo.Sesman.Render.Components.{IsComponent}
use cheirizo.Sesman.Render.RoundTrip.{IsPlainConfig, read_over, parse-render}

-- The case mappings on ASCII.
abbrev lower : ℕ → ℕ
lower c = if leb b'A' c && leb c b'Z' then c + 32 else c

abbrev upper : ℕ → ℕ
upper c = if leb b'a' c && leb c b'z' then c - 32 else c

lower_kept : (s : Text) → all is_plain s ≡ true → map lower s ≡ s
lower_kept [] h = refl
lower_kept (c ∷ s) h =
    let kept : lower c ≡ c = ground arith in
    let rest : map lower s ≡ s = lower_kept s (ground arith) in rw (kept, rest) refl

upper_back : (s : Text) → all is_variable s ≡ true → map upper (map lower s) ≡ s
upper_back [] h = refl
upper_back (c ∷ s) h =
    let back : upper (lower c) ≡ c = ground arith in
    let rest : map upper (map lower s) ≡ s = upper_back s (ground arith) in rw (back, rest) refl

ascii-IsCasing : IsCasing (map lower) (map upper)
ascii-IsCasing = record { plain_kept = lower_kept; variable_back = upper_back }

abbrev bar : ComponentConfig
bar = record {
  name = codes "bar";
  command = codes "/usr/bin/bar";
  args = codes "a b" ∷ codes "-x" ∷ [];
  env = (codes "A", codes "1") ∷ (codes "B_2", codes "two; three") ∷ [];
  working_dir = some (codes "/tmp");
  log_path = none;
  readiness = unix_socket (codes "/run/bar");
  required = false;
  startup_delay_ms = 250;
}

abbrev shell : ComponentConfig
shell = record bar { name = codes "shell"; args = []; env = [] }

abbrev small_config : SesmanConfig
small_config = record {
  session_name = codes "s";
  user = codes "alice";
  xdg_runtime_dir = codes "/run/user/1000";
  state_dir = codes "/var/s";
  log_dir = [];
  default_size = record { width = 1920; height = 1080 };
  start_timeout_ms = 5000;
  stop_timeout_ms = 0;
  idle_timeout_ms = 12345678901;
  environment = (codes "LANG", codes "C") ∷ [];
  cleanup_paths = codes "/tmp/x y" ∷ [];
  cleanup_globs = [];
  components = bar ∷ shell ∷ [];
}

abbrev default : SesmanConfig
default = record small_config {
  user = codes "bob";
  environment = (codes "HOME", codes "/") ∷ [];
  components = [];
}

abbrev raw_char : ℕ → Bool
raw_char c =
    not (c == b'"')
    && not (c == b'\'')
    && not (c == b'#')
    && not (c == b';')
    && not (is_whitespace c)

IsRaw-of_test : (s : Text) → all raw_char s ≡ true → IsRaw s
IsRaw-of_test [] h = tt
IsRaw-of_test (c ∷ s) h = ground (arith, IsRaw-of_test s)

small-IsGlobal : IsGlobal small_config
unfolding is_whitespace
small-IsGlobal = record {
  session_name = IsRaw-of_test small_config.session_name refl;
  user = IsRaw-of_test small_config.user refl;
  xdg_runtime_dir = IsRaw-of_test small_config.xdg_runtime_dir refl;
  state_dir = IsRaw-of_test small_config.state_dir refl;
  log_dir = tt;
  start_timeout_ms = omega arith;
  stop_timeout_ms = omega arith;
  idle_timeout_ms = omega arith;
  width = omega arith;
  height = omega arith;
}

bar-IsComponent : IsComponent bar
unfolding is_whitespace behind text_eq text_lt
bar-IsComponent = record {
  name = refl;
  no_prefix = refl;
  no_env_prefix = refl;
  command = IsRaw-of_test bar.command refl;
  args = ground arith;
  env = ground arith;
  env_ascending = ground arith;
  working_dir = (IsRaw-of_test (codes "/tmp") refl, refl);
  log_path = tt;
  readiness = IsRaw-of_test (codes "/run/bar") refl;
  startup_delay_ms = omega arith;
}

shell-IsComponent : IsComponent shell
unfolding is_whitespace behind text_eq text_lt
shell-IsComponent = record {
  name = refl;
  no_prefix = refl;
  no_env_prefix = refl;
  command = IsRaw-of_test shell.command refl;
  args = tt;
  env = tt;
  env_ascending = tt;
  working_dir = (IsRaw-of_test (codes "/tmp") refl, refl);
  log_path = tt;
  readiness = IsRaw-of_test (codes "/run/bar") refl;
  startup_delay_ms = omega arith;
}

small-IsPlainConfig : IsPlainConfig small_config
unfolding is_whitespace text_lt
small-IsPlainConfig = record {
  globals = small-IsGlobal;
  environment = ground arith;
  cleanup_paths = ground arith;
  cleanup_globs = tt;
  components = (bar-IsComponent, (shell-IsComponent, tt));
  some_component = λ e. ground arith;
  ascending = ground arith;
}

parse-render_example :
    parse_sesman_ini (map lower) (map upper) default (render_sesman_ini small_config)
    ≡ ok (read_over default small_config)
parse-render_example =
    parse-render (map lower) (map upper) ascii-IsCasing default small_config small-IsPlainConfig

-- The variables of the default stay.
merged :
    (read_over default small_config).environment
    ≡ (codes "HOME", codes "/") ∷ (codes "LANG", codes "C") ∷ []
unfolding put_all put text_eq text_lt
merged = refl
