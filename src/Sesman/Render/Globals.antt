-- ===== src/Sesman/Render/Globals.antt =====
-- The sections of a written configuration before its components, read back.
use cheirizo.Prelude.{refl, List, [], ◌∷◌, All, Text, text_eq}
use cheirizo.Prelude.Words.{u32_max, u64_max}
use cheirizo.Prelude.Sorted.{put}
use cheirizo.Prelude.Strings.{codes}
use cheirizo.Sesman.State.{SesmanConfig, ComponentConfig}
use cheirizo.Sesman.Scalars.RoundTrip.{parse-format_list}
use cheirizo.Sesman.Ini.{apply_entry, apply_sesman_global, apply_size, apply_cleanup}
use cheirizo.Sesman.Render.{
  header, name_lines, time_lines, global_lines, size_lines, variable_lines, cleanup_lines,
}
use cheirizo.Sesman.Render.Lines.{Reads, reads, reads_nothing, Reads-append, parse_blank}
use cheirizo.Sesman.Render.Steps.{IsCasing, raw_step, list_step, variable_step, header_step}
use cheirizo.Sesman.Render.Sections.{
  IsEntry, IsVariable, put_all, state_at, items_of, IsGlobal, with_names, with_times, with_globals,
  with_size, with_environment, with_cleanup, number_step,
}

module _ (to_lowercase to_uppercase : Text → Text)
    (casing : IsCasing to_lowercase to_uppercase) where
  module _ (m : List (Text × ComponentConfig)) (c : SesmanConfig) where
    -- The names and paths of the globals.
    globals_named :
        (base : SesmanConfig) (section : Text)
        → IsGlobal c
        → Reads to_lowercase to_uppercase
            (state_at base section m)
            (name_lines c)
            (state_at (with_names c base) (codes "globals") m)
    unfolding apply_entry apply_sesman_global text_eq
    globals_named base section h =
        let raw = raw_step to_lowercase to_uppercase casing in
        let start = state_at base (codes "globals") m in
        let names = with_names c base in
        let after_name = record base { session_name = c.session_name } in
        let after_user = record after_name { user = c.user } in
        let after_runtime = record after_user { xdg_runtime_dir = c.xdg_runtime_dir } in
        let after_state = record after_runtime { state_dir = c.state_dir } in
        reads
          (λ n.
            header_step to_lowercase to_uppercase casing (state_at base section m) (codes "globals")
              n refl)
          (reads
            (λ n.
              raw start (state_at after_name (codes "globals") m) (codes "session_name")
                c.session_name n refl refl h.session_name refl)
            (reads
              (λ n.
                raw _ (state_at after_user (codes "globals") m) (codes "user") c.user n refl refl
                  h.user refl)
              (reads
                (λ n.
                  raw _ (state_at after_runtime (codes "globals") m) (codes "xdg_runtime_dir")
                    c.xdg_runtime_dir n refl refl h.xdg_runtime_dir refl)
                (reads
                  (λ n.
                    raw _ (state_at after_state (codes "globals") m) (codes "state_dir") c.state_dir
                      n refl refl h.state_dir refl)
                  (reads
                    (λ n.
                      raw _ (state_at names (codes "globals") m) (codes "log_dir") c.log_dir n refl
                        refl h.log_dir refl)
                    reads_nothing)))))

    globals_timed :
        (a : SesmanConfig)
        → IsGlobal c
        → Reads to_lowercase to_uppercase (state_at a (codes "globals") m) (time_lines c) (
            state_at
              (with_times c.start_timeout_ms c.stop_timeout_ms c.idle_timeout_ms a)
              (codes "globals")
              m)
    unfolding apply_entry apply_sesman_global text_eq
    globals_timed a h =
        reads
          (λ n.
            number_step to_lowercase to_uppercase casing (state_at a (codes "globals") m)
              (state_at (with_times c.start_timeout_ms a.stop_timeout_ms a.idle_timeout_ms a)
                (codes "globals") m)
              (codes "start_timeout_ms") u64_max c.start_timeout_ms n refl refl h.start_timeout_ms
              (λ e. rw e refl))
          (reads
            (λ n.
              number_step to_lowercase to_uppercase casing _
                (state_at (with_times c.start_timeout_ms c.stop_timeout_ms a.idle_timeout_ms a)
                  (codes "globals") m)
                (codes "stop_timeout_ms") u64_max c.stop_timeout_ms n refl refl h.stop_timeout_ms
                (λ e. rw e refl))
            (reads
              (λ n.
                number_step to_lowercase to_uppercase casing _
                  (state_at (with_times c.start_timeout_ms c.stop_timeout_ms c.idle_timeout_ms a)
                    (codes "globals") m)
                  (codes "idle_timeout_ms") u64_max c.idle_timeout_ms n refl refl h.idle_timeout_ms
                  (λ e. rw e refl))
              (reads (λ n. parse_blank to_lowercase to_uppercase _ n) reads_nothing)))

    pub globals_read :
        (base : SesmanConfig) (section : Text)
        → IsGlobal c
        → Reads to_lowercase to_uppercase
            (state_at base section m)
            (global_lines c)
            (state_at (with_globals c base) (codes "globals") m)
    globals_read base section h =
        Reads-append to_lowercase to_uppercase (globals_named base section h)
          (globals_timed (with_names c base) h)

    pub size_read :
        (base : SesmanConfig) (section : Text)
        → IsGlobal c
        → Reads to_lowercase to_uppercase (state_at base section m) (size_lines c) (
            state_at
              (with_size base c.default_size.width c.default_size.height)
              (codes "default_size")
              m)
    unfolding apply_entry apply_size text_eq
    size_read base section h =
        let w = c.default_size.width in
        reads
          (λ n.
            header_step to_lowercase to_uppercase casing (state_at base section m)
              (codes "default_size") n refl)
          (reads
            (λ n.
              number_step to_lowercase to_uppercase casing (state_at base (codes "default_size") m)
                (state_at (with_size base w base.default_size.height) (codes "default_size") m)
                (codes "width") u32_max w n refl refl h.width (λ e. rw e refl))
            (reads
              (λ n.
                number_step to_lowercase to_uppercase casing _
                  (state_at (with_size base w c.default_size.height) (codes "default_size") m)
                  (codes "height") u32_max c.default_size.height n refl refl h.height
                  (λ e. rw e refl))
              (reads (λ n. parse_blank to_lowercase to_uppercase _ n) reads_nothing)))

    pub cleanup_read :
        (base : SesmanConfig) (section : Text)
        → All IsEntry c.cleanup_paths
        → All IsEntry c.cleanup_globs
        → Reads to_lowercase to_uppercase
            (state_at base section m)
            (cleanup_lines c)
            (state_at (with_cleanup base c.cleanup_paths c.cleanup_globs) (codes "cleanup") m)
    unfolding apply_entry apply_cleanup text_eq
    cleanup_read base section hp hg =
        let listed = list_step to_lowercase to_uppercase casing in
        reads
          (λ n.
            header_step to_lowercase to_uppercase casing (state_at base section m) (codes "cleanup")
              n refl)
          (reads
            (λ n.
              listed (state_at base (codes "cleanup") m)
                (state_at (with_cleanup base c.cleanup_paths base.cleanup_globs) (codes "cleanup")
                  m)
                (codes "paths") c.cleanup_paths n refl refl (items_of _ hp)
                (rw (parse-format_list c.cleanup_paths (items_of _ hp)) refl))
            (reads
              (λ n.
                listed _
                  (state_at (with_cleanup base c.cleanup_paths c.cleanup_globs) (codes "cleanup") m)
                  (codes "globs") c.cleanup_globs n refl refl (items_of _ hg)
                  (rw (parse-format_list c.cleanup_globs (items_of _ hg)) refl))
              (reads (λ n. parse_blank to_lowercase to_uppercase _ n) reads_nothing)))

    variables_read :
        (base : SesmanConfig) (env : List (Text × Text))
        → All IsVariable env
        → Reads to_lowercase to_uppercase
            (state_at base (codes "environment") m)
            (variable_lines env)
            (state_at
              (with_environment base (put_all env base.environment))
              (codes "environment")
              m)
    unfolding apply_entry text_eq variable_lines put_all
    variables_read base [] h = reads (λ n. parse_blank to_lowercase to_uppercase _ n) reads_nothing
    variables_read base ((k, v) ∷ env) h =
        let next = with_environment base (put k v base.environment) in
        reads
          (λ n.
            variable_step to_lowercase to_uppercase casing (state_at base (codes "environment") m)
              (state_at next (codes "environment") m) k v n h.0.0 h.0.1 h.0.2
              (rw (casing.variable_back k h.0.0) refl))
          (variables_read next env h.1)

    pub environment_read :
        (base : SesmanConfig) (section : Text)
        → All IsVariable c.environment
        → Reads to_lowercase to_uppercase
            (state_at base section m)
            (header (codes "environment") ∷ variable_lines c.environment)
            (state_at
              (with_environment base (put_all c.environment base.environment))
              (codes "environment")
              m)
    environment_read base section h =
        reads
          (λ n.
            header_step to_lowercase to_uppercase casing (state_at base section m)
              (codes "environment") n refl)
          (variables_read base c.environment h)
