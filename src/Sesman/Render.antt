-- ===== src/Sesman/Render.antt =====
-- `render_sesman_ini` of src/sesman/state.rs, as the lines that it pushes with a line feed each.
pub mod Clean
pub mod Lines
pub mod Steps
pub mod Sections
pub mod Globals
pub mod Entries
pub mod Components
pub mod LineEnds
pub mod AllLines
pub mod RoundTrip
use cheirizo.Prelude.{
  ℕ, Bool, true, false, if◌then◌else◌, Option, none, some, List, [], ◌∷◌, ◌++◌, Text,
}
use cheirizo.Prelude.Strings.{codes, unlines}
use cheirizo.Sesman.State.{
  SesmanConfig, ComponentConfig, SessionSize, ReadinessCheck, process_alive_check, no_check,
  unix_socket,
}
use cheirizo.Sesman.Scalars.{format_ini_scalar, format_ini_list, show_unsigned, show_bool}

-- `key=value`.
abbrev pub entry : Text → Text → Text
entry key value = key ++ (b'=' ∷ value)

-- `[name]`.
abbrev pub header : Text → Text
header name = b'[' ∷ (name ++ b']' ∷ [])

abbrev pub blank : Text
blank = []

abbrev pub name_lines : SesmanConfig → List Text
name_lines c =
    header (codes "globals")
    ∷ entry (codes "session_name") c.session_name
    ∷ entry (codes "user") c.user
    ∷ entry (codes "xdg_runtime_dir") c.xdg_runtime_dir
    ∷ entry (codes "state_dir") c.state_dir
    ∷ entry (codes "log_dir") c.log_dir
    ∷ []

abbrev pub time_lines : SesmanConfig → List Text
time_lines c =
    entry (codes "start_timeout_ms") (show_unsigned c.start_timeout_ms)
    ∷ entry (codes "stop_timeout_ms") (show_unsigned c.stop_timeout_ms)
    ∷ entry (codes "idle_timeout_ms") (show_unsigned c.idle_timeout_ms)
    ∷ blank
    ∷ []

abbrev pub global_lines : SesmanConfig → List Text
global_lines c = name_lines c ++ time_lines c

abbrev pub size_lines : SesmanConfig → List Text
size_lines c =
    header (codes "default_size")
    ∷ entry (codes "width") (show_unsigned c.default_size.width)
    ∷ entry (codes "height") (show_unsigned c.default_size.height)
    ∷ blank
    ∷ []

unfoldable pub variable_lines : List (Text × Text) → List Text
variable_lines [] = blank ∷ []
variable_lines ((key, value) ∷ env) = entry key (format_ini_scalar value) ∷ variable_lines env

abbrev pub cleanup_lines : SesmanConfig → List Text
cleanup_lines c =
    header (codes "cleanup")
    ∷ entry (codes "paths") (format_ini_list c.cleanup_paths)
    ∷ entry (codes "globs") (format_ini_list c.cleanup_globs)
    ∷ blank
    ∷ []

abbrev pub optional_line : Text → Option Text → List Text
optional_line key none = []
optional_line key (some path) = entry key path ∷ []

abbrev pub readiness_lines : ReadinessCheck → List Text
readiness_lines process_alive_check = entry (codes "readiness") (codes "process_alive") ∷ []
readiness_lines no_check = entry (codes "readiness") (codes "none") ∷ []
readiness_lines (unix_socket path) =
    entry (codes "readiness") (codes "unix_socket") ∷ entry (codes "readiness_path") path ∷ []

abbrev pub env_lines : Text → List (Text × Text) → List Text
env_lines name [] = []
env_lines name (e ∷ env) = header (codes "component_env:" ++ name) ∷ variable_lines (e ∷ env)

unfoldable pub component_lines : ComponentConfig → List Text
component_lines c =
    (header (codes "component:" ++ c.name)
      ∷ entry (codes "command") c.command
      ∷ entry (codes "args") (format_ini_list c.args)
      ∷ [])
    ++ (optional_line (codes "working_dir") c.working_dir
        ++ (optional_line (codes "log_path") c.log_path
            ++ (readiness_lines c.readiness
                ++ ((entry (codes "required") (show_bool c.required)
                      ∷ entry (codes "startup_delay_ms") (show_unsigned c.startup_delay_ms)
                      ∷ blank
                      ∷ [])
                    ++ env_lines c.name c.env))))

unfoldable pub all_component_lines : List ComponentConfig → List Text
unfolding component_lines
all_component_lines [] = []
all_component_lines (c ∷ cs) = component_lines c ++ all_component_lines cs

unfoldable pub render_lines : SesmanConfig → List Text
unfolding variable_lines all_component_lines
render_lines c =
    global_lines c
    ++ (size_lines c
        ++ ((header (codes "environment") ∷ variable_lines c.environment)
            ++ (cleanup_lines c ++ all_component_lines c.components)))

unfoldable pub render_sesman_ini : SesmanConfig → Text
unfolding render_lines
render_sesman_ini c = unlines (render_lines c)
