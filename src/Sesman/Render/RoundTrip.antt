-- ===== src/Sesman/Render/RoundTrip.antt =====
-- A written configuration is read back: `parse_sesman_ini` over `render_sesman_ini` in src/sesman/state.rs.
use mathlib.Core.List.{append-nil, append_assoc}
use cheirizo.Prelude.{◌≡◌, ◌≢◌, refl, sym, ap, subst, List, [], ◌∷◌, ◌++◌, All, Text}
use cheirizo.Prelude.Sorted.{Before}
use cheirizo.Prelude.Strings.{codes, lines-unlines}
use cheirizo.Sesman.State.{SesmanConfig, ComponentConfig}
use cheirizo.Sesman.Ini.{ok, parse_sesman_ini, empty_component, finished, values}
use cheirizo.Sesman.Render.{
  component_lines, all_component_lines, env_lines, render_lines, render_sesman_ini,
}
use cheirizo.Sesman.Render.Lines.{Reads, reads, reads_nothing, Reads-append, parse_lines-Reads}
use cheirizo.Sesman.Render.Steps.{IsCasing, header_step}
use cheirizo.Sesman.Render.Sections.{
  IsEntry, IsVariable, IsGlobal, put_all, AscendingFrom, put_all_ascending, state_at, with_globals,
  with_size, with_environment, with_cleanup,
}
use cheirizo.Sesman.Render.Globals.{globals_read, size_read, environment_read, cleanup_read}
use cheirizo.Sesman.Render.Entries.{component_section, env_section}
use cheirizo.Sesman.Render.Components.{
  IsComponent, named, head_read, working_dir_read, log_path_read, readiness_read, end_read,
  own_variables_read,
}
use cheirizo.Sesman.Render.AllLines.{render-IsLine}

-- A configuration that comes back.
pub record IsPlainConfig (c : SesmanConfig) : Type 0 where
  pub globals : IsGlobal c
  pub environment : All IsVariable c.environment
  pub cleanup_paths : All IsEntry c.cleanup_paths
  pub cleanup_globs : All IsEntry c.cleanup_globs
  pub components : All IsComponent c.components
  pub some_component : c.components ≢ []
  pub ascending : AscendingFrom [] (named c.components)

-- The section that the lines of a component end in.
abbrev section_after : Text → List (Text × Text) → Text
section_after name [] = component_section name
section_after name (e ∷ env) = env_section name

abbrev section_end : Text → List ComponentConfig → Text
section_end section [] = section
section_end section (c ∷ cs) = section_end (section_after c.name c.env) cs

-- The configuration that comes back over another one: the variables are merged.
abbrev pub read_over : SesmanConfig → SesmanConfig → SesmanConfig
read_over base c = record c { environment = put_all c.environment base.environment }

abbrev before_components : SesmanConfig → SesmanConfig → SesmanConfig
before_components base c = record (read_over base c) { components = base.components }

module _ (to_lowercase to_uppercase : Text → Text)
    (casing : IsCasing to_lowercase to_uppercase) where
  -- The environment of a component, behind the rest of it.
  env_read :
      (cfg : SesmanConfig) (m : List (Text × ComponentConfig)) (c : ComponentConfig)
      (env : List (Text × Text))
      → IsComponent c
      → Before c.name m
      → All IsVariable env
      → Reads to_lowercase to_uppercase
          (state_at cfg (component_section c.name) (m ++ (c.name, record c { env = [] }) ∷ []))
          (env_lines c.name env)
          (state_at cfg
            (section_after c.name env)
            (m ++ (c.name, record c { env = put_all env [] }) ∷ []))
  unfolding put_all
  env_read cfg m c [] h last variables = reads_nothing
  env_read cfg m c (e ∷ env) h last variables =
      let own = m ++ (c.name, record c { env = [] }) ∷ [] in
      reads
        (λ n.
          header_step to_lowercase to_uppercase casing (state_at cfg (component_section c.name) own)
            (env_section c.name) n h.name)
        (own_variables_read to_lowercase to_uppercase casing cfg m c.name h.no_prefix last
          (record c { env = [] }) (e ∷ env) h.no_env_prefix variables)

  component_read :
      (cfg : SesmanConfig) (section : Text) (m : List (Text × ComponentConfig))
      (c : ComponentConfig)
      → IsComponent c
      → Before c.name m
      → Reads to_lowercase to_uppercase
          (state_at cfg section m)
          (component_lines c)
          (state_at cfg (section_after c.name c.env) (m ++ (c.name, c) ∷ []))
  unfolding component_lines empty_component
  component_read cfg section m c h last =
      let x = c.name in
      let a = record (empty_component x) { command = c.command; args = c.args } in
      let b = record a { working_dir = c.working_dir } in
      let d = record b { log_path = c.log_path } in
      let e = record d { readiness = c.readiness } in
      let whole = put_all_ascending [] c.env h.env_ascending in
      Reads-append to_lowercase to_uppercase
        (head_read to_lowercase to_uppercase casing cfg m x h.no_prefix last section c.command
          c.args h.name h.command h.args)
        (Reads-append to_lowercase to_uppercase
          (working_dir_read to_lowercase to_uppercase casing cfg m x h.no_prefix last a
            c.working_dir h.working_dir)
          (Reads-append to_lowercase to_uppercase
            (log_path_read to_lowercase to_uppercase casing cfg m x h.no_prefix last b c.log_path
              h.log_path)
            (Reads-append to_lowercase to_uppercase
              (readiness_read to_lowercase to_uppercase casing cfg m x h.no_prefix last d
                c.readiness h.readiness)
              (Reads-append to_lowercase to_uppercase
                (end_read to_lowercase to_uppercase casing cfg m x h.no_prefix last e c.required
                  c.startup_delay_ms h.startup_delay_ms)
                (subst
                  (λ (env : List (Text × Text)).
                    Reads to_lowercase to_uppercase
                      (state_at cfg (component_section x) (m ++ (x, record c { env = [] }) ∷ []))
                      (env_lines x c.env)
                      (state_at cfg (section_after x c.env)
                        (m ++ (x, record c { env = env }) ∷ [])))
                  whole (env_read cfg m c c.env h last h.env))))))

  components_read :
      (cfg : SesmanConfig) (section : Text) (m : List (Text × ComponentConfig))
      (cs : List ComponentConfig)
      → All IsComponent cs
      → AscendingFrom m (named cs)
      → Reads to_lowercase to_uppercase
          (state_at cfg section m)
          (all_component_lines cs)
          (state_at cfg (section_end section cs) (m ++ named cs))
  unfolding all_component_lines
  components_read cfg section m [] h a =
      subst
        (λ (l : List (Text × ComponentConfig)).
          Reads to_lowercase to_uppercase (state_at cfg section m) [] (state_at cfg section l))
        (sym (append-nil m)) reads_nothing
  components_read cfg section m (c ∷ cs) h a =
      Reads-append to_lowercase to_uppercase (component_read cfg section m c h.0 a.0) (
        subst
          (λ (l : List (Text × ComponentConfig)).
            Reads to_lowercase to_uppercase
              (state_at cfg (section_after c.name c.env) (m ++ (c.name, c) ∷ []))
              (all_component_lines cs) (state_at cfg (section_end section (c ∷ cs)) l))
          (append_assoc m ((c.name, c) ∷ []) (named cs))
          (components_read cfg (section_after c.name c.env) (m ++ (c.name, c) ∷ []) cs h.1 a.1))

  config_read :
      (base c : SesmanConfig)
      → IsPlainConfig c
      → Reads to_lowercase to_uppercase (state_at base (codes "globals") []) (render_lines c) (
          state_at
            (before_components base c)
            (section_end (codes "cleanup") c.components)
            (named c.components))
  unfolding render_lines
  config_read base c h =
      let g = with_globals c base in
      let s = with_size g c.default_size.width c.default_size.height in
      let e = with_environment s (put_all c.environment base.environment) in
      let k = with_cleanup e c.cleanup_paths c.cleanup_globs in
      Reads-append to_lowercase to_uppercase
        (globals_read to_lowercase to_uppercase casing [] c base (codes "globals") h.globals)
        (Reads-append to_lowercase to_uppercase
          (size_read to_lowercase to_uppercase casing [] c g (codes "globals") h.globals)
          (Reads-append to_lowercase to_uppercase
            (environment_read to_lowercase to_uppercase casing [] c s (codes "default_size")
              h.environment)
            (Reads-append to_lowercase to_uppercase
              (cleanup_read to_lowercase to_uppercase casing [] c e (codes "environment")
                h.cleanup_paths h.cleanup_globs)
              (components_read k (codes "cleanup") [] c.components h.components h.ascending))))

  values-named : (cs : List ComponentConfig) → values to_lowercase to_uppercase (named cs) ≡ cs
  values-named [] = refl
  values-named (c ∷ cs) = ap (λ (l : List ComponentConfig). c ∷ l) (values-named cs)

  finished-named :
      (c : SesmanConfig) (section : Text) (cs : List ComponentConfig)
      → cs ≢ []
      → finished to_lowercase to_uppercase (state_at c section (named cs))
        ≡ record c { components = cs }
  finished-named c section [] there = absurd (there refl)
  finished-named c section (d ∷ cs) there =
      ap (λ (l : List ComponentConfig). record c { components = d ∷ l }) (values-named cs)

  -- A configuration is read back from the file that is rendered of it, only that its variables are added to
  -- those of the default configuration, if: the case mappings keep lower-case ASCII and undo each other on
  -- upper-case variables; names, commands and paths have no white space, quotes or comment signs; values
  -- of variables and items of lists have no quotes or line ends, and items no commas; numbers fit their
  -- types; component names are lower-case, ascending and begin with no section prefix; the variables of a
  -- component are ascending; and there is a component.
  pub parse-render :
      (base c : SesmanConfig)
      → IsPlainConfig c
      → parse_sesman_ini to_lowercase to_uppercase base (render_sesman_ini c)
        ≡ ok (read_over base c)
  unfolding parse_sesman_ini render_sesman_ini
  parse-render base c h =
      let whole =
        lines-unlines (render_lines c)
          (render-IsLine c h.globals h.environment h.cleanup_paths h.cleanup_globs h.components) in
      rw whole (
        rw (parse_lines-Reads to_lowercase to_uppercase 1 (config_read base c h)) (
          ap ok (
            finished-named (before_components base c) (section_end (codes "cleanup") c.components)
              c.components h.some_component)))
