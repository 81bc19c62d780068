-- ===== src/Sesman/Render/AllLines.antt =====
-- No line of a written configuration has a line end in it.
use cheirizo.Prelude.{
  ◌≡◌, refl, Bool, true, false, Option, none, some, List, [], ◌∷◌, ◌++◌, All, all, Text,
}
use cheirizo.Prelude.Strings.{codes, IsLine}
use cheirizo.Sesman.State.{
  SesmanConfig, ComponentConfig, ReadinessCheck, process_alive_check, no_check, unix_socket,
}
use cheirizo.Sesman.Scalars.{show_bool, format_ini_list, format_ini_scalar}
use cheirizo.Sesman.Render.{
  entry, header, variable_lines, component_lines, all_component_lines, optional_line,
  readiness_lines, env_lines, render_lines, name_lines, time_lines, size_lines, cleanup_lines,
}
use cheirizo.Sesman.Render.Steps.{is_plain, plain-IsRaw, variable-IsRaw}
use cheirizo.Sesman.Render.Sections.{IsEntry, IsVariable, IsGlobal}
use cheirizo.Sesman.Render.Components.{IsComponent, IsPath, IsSocket}
use cheirizo.Sesman.Render.LineEnds.{
  IsLine-entry, raw_entry-IsLine, header-IsLine, scalar-IsLine, list-IsLine, number-IsLine,
  no-IsLine, all-append,
}

variables-IsLine : (env : List (Text × Text)) → All IsVariable env → All IsLine (variable_lines env)
unfolding variable_lines
variables-IsLine [] h = (no-IsLine, tt)
variables-IsLine ((k, v) ∷ env) h = (
  IsLine-entry k (format_ini_scalar v) (variable-IsRaw k h.0.0) (scalar-IsLine v h.0.2 h.0.3),
  variables-IsLine env h.1,
)

optional-IsLine :
    (k : Text) (path : Option Text)
    → all is_plain k ≡ true
    → IsPath path
    → All IsLine (optional_line k path)
optional-IsLine k none hk h = tt
optional-IsLine k (some path) hk h = (raw_entry-IsLine k path hk h.0, tt)

readiness-IsLine : (r : ReadinessCheck) → IsSocket r → All IsLine (readiness_lines r)
readiness-IsLine process_alive_check h = (
  raw_entry-IsLine (codes "readiness") (codes "process_alive") refl
      (plain-IsRaw (codes "process_alive") refl),
  tt,
)
readiness-IsLine no_check h =
    (raw_entry-IsLine (codes "readiness") (codes "none") refl (plain-IsRaw (codes "none") refl), tt)
readiness-IsLine (unix_socket path) h = (
  raw_entry-IsLine (codes "readiness") (codes "unix_socket") refl
      (plain-IsRaw (codes "unix_socket") refl),
  (raw_entry-IsLine (codes "readiness_path") path refl h, tt),
)

bool-IsLine : (b : Bool) → IsLine (entry (codes "required") (show_bool b))
bool-IsLine true =
    raw_entry-IsLine (codes "required") (codes "true") refl (plain-IsRaw (codes "true") refl)
bool-IsLine false =
    raw_entry-IsLine (codes "required") (codes "false") refl (plain-IsRaw (codes "false") refl)

env-IsLine :
    (name : Text) (env : List (Text × Text))
    → all is_plain name ≡ true
    → All IsVariable env
    → All IsLine (env_lines name env)
env-IsLine name [] hn h = tt
env-IsLine name (e ∷ env) hn h =
    (header-IsLine (codes "component_env:" ++ name) hn, variables-IsLine (e ∷ env) h)

component-IsLine : (c : ComponentConfig) → IsComponent c → All IsLine (component_lines c)
unfolding component_lines
component-IsLine c h =
    all-append
      (header (codes "component:" ++ c.name)
        ∷ entry (codes "command") c.command
        ∷ entry (codes "args") (format_ini_list c.args)
        ∷ [])
      _
      (
        header-IsLine (codes "component:" ++ c.name) h.name,
        (
          raw_entry-IsLine (codes "command") c.command refl h.command,
          (list-IsLine (codes "args") c.args refl h.args, tt),
        ),
      )
      (all-append (optional_line (codes "working_dir") c.working_dir) _
        (optional-IsLine (codes "working_dir") c.working_dir refl h.working_dir)
        (all-append (optional_line (codes "log_path") c.log_path) _
          (optional-IsLine (codes "log_path") c.log_path refl h.log_path)
          (all-append (readiness_lines c.readiness) _ (readiness-IsLine c.readiness h.readiness) (
            bool-IsLine c.required,
            (
              number-IsLine (codes "startup_delay_ms") c.startup_delay_ms refl,
              (no-IsLine, env-IsLine c.name c.env h.name h.env),
            ),
          ))))

components-IsLine :
    (cs : List ComponentConfig) → All IsComponent cs → All IsLine (all_component_lines cs)
unfolding all_component_lines
components-IsLine [] h = tt
components-IsLine (c ∷ cs) h =
    all-append (component_lines c) (all_component_lines cs) (component-IsLine c h.0)
      (components-IsLine cs h.1)

globals-IsLine : (c : SesmanConfig) → IsGlobal c → All IsLine (name_lines c ++ time_lines c)
globals-IsLine c g = (
  header-IsLine (codes "globals") refl,
  (
    raw_entry-IsLine (codes "session_name") c.session_name refl g.session_name,
    (
      raw_entry-IsLine (codes "user") c.user refl g.user,
      (
        raw_entry-IsLine (codes "xdg_runtime_dir") c.xdg_runtime_dir refl g.xdg_runtime_dir,
        (
          raw_entry-IsLine (codes "state_dir") c.state_dir refl g.state_dir,
          (
            raw_entry-IsLine (codes "log_dir") c.log_dir refl g.log_dir,
            (
              number-IsLine (codes "start_timeout_ms") c.start_timeout_ms refl,
              (
                number-IsLine (codes "stop_timeout_ms") c.stop_timeout_ms refl,
                (number-IsLine (codes "idle_timeout_ms") c.idle_timeout_ms refl, (no-IsLine, tt)),
              ),
            ),
          ),
        ),
      ),
    ),
  ),
)

size-IsLine : (c : SesmanConfig) → All IsLine (size_lines c)
size-IsLine c = (
  header-IsLine (codes "default_size") refl,
  (
    number-IsLine (codes "width") c.default_size.width refl,
    (number-IsLine (codes "height") c.default_size.height refl, (no-IsLine, tt)),
  ),
)

cleanup-IsLine :
    (c : SesmanConfig)
    → All IsEntry c.cleanup_paths
    → All IsEntry c.cleanup_globs
    → All IsLine (cleanup_lines c)
cleanup-IsLine c paths globs = (
  header-IsLine (codes "cleanup") refl,
  (
    list-IsLine (codes "paths") c.cleanup_paths refl paths,
    (list-IsLine (codes "globs") c.cleanup_globs refl globs, (no-IsLine, tt)),
  ),
)

pub render-IsLine :
    (c : SesmanConfig)
    → IsGlobal c
    → All IsVariable c.environment
    → All IsEntry c.cleanup_paths
    → All IsEntry c.cleanup_globs
    → All IsComponent c.components
    → All IsLine (render_lines c)
unfolding render_lines
render-IsLine c g env paths globs components =
    let environment = header (codes "environment") ∷ variable_lines c.environment in
    let from_cleanup = cleanup_lines c ++ all_component_lines c.components in
    all-append (name_lines c ++ time_lines c) (size_lines c ++ (environment ++ from_cleanup))
      (globals-IsLine c g)
      (all-append (size_lines c) (environment ++ from_cleanup) (size-IsLine c) (
        all-append environment from_cleanup
          (header-IsLine (codes "environment") refl, variables-IsLine c.environment env)
          (all-append (cleanup_lines c) (all_component_lines c.components)
            (cleanup-IsLine c paths globs) (components-IsLine c.components components))))
