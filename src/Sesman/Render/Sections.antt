-- ===== src/Sesman/Render/Sections.antt =====
-- The conditions on a configuration that comes back, and the states that its sections lead to.
use mathlib.Core.List.{append-nil, append_assoc}
use cheirizo.Prelude.{ℕ, ◌≤◌, ◌≡◌, ◌∙◌, sym, true, false, some, List, [], ◌∷◌, ◌++◌, All, all, Text}
use cheirizo.Prelude.Words.{u32_max, u64_max}
use cheirizo.Prelude.Sorted.{put, Before, put-last}
use cheirizo.Prelude.Strings.{IsLine}
use cheirizo.Sesman.State.{SesmanConfig, ComponentConfig}
use cheirizo.Sesman.Scalars.{show_unsigned, parse_unsigned, is_empty}
use cheirizo.Sesman.Scalars.Decimal.{parse-show}
use cheirizo.Sesman.Scalars.RoundTrip.{Unquoted, IsItem}
use cheirizo.Sesman.Ini.{IniState, ok, parse_line, apply_entry}
use cheirizo.Sesman.Render.{entry}
use cheirizo.Sesman.Render.Clean.{IsRaw}
use cheirizo.Sesman.Render.Steps.{is_plain, is_variable, IsCasing, raw_step, show_unsigned-IsRaw}

-- An entry of a list that comes back: no quotes, commas and line ends.
abbrev pub IsEntry : Text → Type 0
IsEntry v = IsItem v × IsLine v

-- A variable that comes back.
abbrev pub IsVariable : Text × Text → Type 0
IsVariable e = (all is_variable e.0 ≡ true) × (is_empty e.0 ≡ false) × Unquoted e.1 × IsLine e.1

-- Variables that are put into a map one by one.
unfoldable pub put_all : List (Text × Text) → List (Text × Text) → List (Text × Text)
put_all [] m = m
put_all ((k, v) ∷ env) m = put_all env (put k v m)

-- Each key comes behind those of the entries before it, the first ones given.
abbrev pub AscendingFrom {ℓ} : {A : Type ℓ} → List (Text × A) → List (Text × A) → Type 0
AscendingFrom done [] = Unit {0}
AscendingFrom done ((k, v) ∷ m) = Before k done × AscendingFrom (done ++ (k, v) ∷ []) m

pub put_all_ascending :
    (m env : List (Text × Text)) → AscendingFrom m env → put_all env m ≡ m ++ env
unfolding put_all
put_all_ascending m [] h = sym (append-nil m)
put_all_ascending m ((k, v) ∷ env) h =
    rw (put-last k v m h.0)
      (put_all_ascending (m ++ (k, v) ∷ []) env h.1 ∙ append_assoc m ((k, v) ∷ []) env)

abbrev pub state_at : SesmanConfig → Text → List (Text × ComponentConfig) → IniState
state_at c section m = record { config = c; section = section; components = m }

pub items_of : (vs : List Text) → All IsEntry vs → All IsItem vs
items_of [] h = tt
items_of (v ∷ vs) h = (h.0.0, items_of vs h.1)

-- What of a configuration stands in the globals.
pub record IsGlobal (c : SesmanConfig) : Type 0 where
  pub session_name : IsRaw c.session_name
  pub user : IsRaw c.user
  pub xdg_runtime_dir : IsRaw c.xdg_runtime_dir
  pub state_dir : IsRaw c.state_dir
  pub log_dir : IsRaw c.log_dir
  pub start_timeout_ms : c.start_timeout_ms ≤ u64_max
  pub stop_timeout_ms : c.stop_timeout_ms ≤ u64_max
  pub idle_timeout_ms : c.idle_timeout_ms ≤ u64_max
  pub width : c.default_size.width ≤ u32_max
  pub height : c.default_size.height ≤ u32_max

abbrev pub with_names : SesmanConfig → SesmanConfig → SesmanConfig
with_names c base = record base {
  session_name = c.session_name;
  user = c.user;
  xdg_runtime_dir = c.xdg_runtime_dir;
  state_dir = c.state_dir;
  log_dir = c.log_dir;
}

abbrev pub with_times : ℕ → ℕ → ℕ → SesmanConfig → SesmanConfig
with_times start stop idle base = record base {
  start_timeout_ms = start;
  stop_timeout_ms = stop;
  idle_timeout_ms = idle;
}

abbrev pub with_globals : SesmanConfig → SesmanConfig → SesmanConfig
with_globals c base =
    with_times c.start_timeout_ms c.stop_timeout_ms c.idle_timeout_ms (with_names c base)

abbrev pub with_size : SesmanConfig → ℕ → ℕ → SesmanConfig
with_size base w h = record base { default_size = record { width = w; height = h } }

abbrev pub with_environment : SesmanConfig → List (Text × Text) → SesmanConfig
with_environment base env = record base { environment = env }

abbrev pub with_cleanup : SesmanConfig → List Text → List Text → SesmanConfig
with_cleanup base paths globs = record base { cleanup_paths = paths; cleanup_globs = globs }

module _ (to_lowercase to_uppercase : Text → Text)
    (casing : IsCasing to_lowercase to_uppercase) where
  -- An entry with a number, given what its section makes of the number read.
  pub number_step :
      (st st' : IniState) (key : Text) (max v n : ℕ)
      → all is_plain key ≡ true
      → is_empty key ≡ false
      → v ≤ max
      → (parse_unsigned max (show_unsigned v) ≡ some v
          → apply_entry to_lowercase to_uppercase st key (show_unsigned v) n ≡ ok st')
      → parse_line to_lowercase to_uppercase st n (entry key (show_unsigned v)) ≡ ok st'
  number_step st st' key max v n plain there le e =
      raw_step to_lowercase to_uppercase casing st st' key (show_unsigned v) n plain there
        (show_unsigned-IsRaw v) (e (parse-show max v le))
