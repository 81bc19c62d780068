-- ===== src/Sesman/Render/Components.antt =====
-- The components of a written configuration, read back.
use cheirizo.Prelude.{
  ℕ, ◌≤◌, ◌≡◌, ◌∙◌, refl, ap, Bool, true, false, Option, none, some, List, [], ◌∷◌, ◌++◌, All, all,
  Text, text_eq,
}
use cheirizo.Prelude.Words.{u64_max}
use cheirizo.Prelude.Sorted.{put, Before}
use cheirizo.Prelude.Strings.{codes, trim-Solid}
use cheirizo.Sesman.State.{
  SesmanConfig, ComponentConfig, ReadinessCheck, process_alive_check, no_check, unix_socket,
}
use cheirizo.Sesman.Scalars.{
  show_unsigned, show_bool, parse_bool, is_empty, format_ini_list, nonempty_path,
}
use cheirizo.Sesman.Scalars.RoundTrip.{parse-format_list}
use cheirizo.Sesman.Ini.{
  IniState, ok, parse_line, apply_component_key, empty_component, behind, readiness_of,
}
use cheirizo.Sesman.Render.{entry, header, variable_lines, optional_line, readiness_lines}
use cheirizo.Sesman.Render.Clean.{IsRaw, raw-Solid}
use cheirizo.Sesman.Render.Lines.{Reads, reads, reads_nothing, parse_blank}
use cheirizo.Sesman.Render.Steps.{
  is_plain, IsCasing, raw_step, list_step, variable_step, header_step, plain-IsRaw,
}
use cheirizo.Sesman.Render.Entries.{
  component_section, env_section, first_entry, later_entry, later_variable,
}
use cheirizo.Sesman.Render.Sections.{
  IsEntry, IsVariable, put_all, AscendingFrom, state_at, items_of, number_step,
}

-- An optional path that comes back.
abbrev pub IsPath : Option Text → Type 0
IsPath none = Unit {0}
IsPath (some path) = IsRaw path × (is_empty path ≡ false)

abbrev pub IsSocket : ReadinessCheck → Type 0
IsSocket process_alive_check = Unit {0}
IsSocket no_check = Unit {0}
IsSocket (unix_socket path) = IsRaw path

-- A component that comes back.
pub record IsComponent (c : ComponentConfig) : Type 0 where
  pub name : all is_plain c.name ≡ true
  pub no_prefix : behind (codes "component:") c.name ≡ none
  pub no_env_prefix : behind (codes "component_env:") c.name ≡ none
  pub command : IsRaw c.command
  pub args : All IsEntry c.args
  pub env : All IsVariable c.env
  pub env_ascending : AscendingFrom [] c.env
  pub working_dir : IsPath c.working_dir
  pub log_path : IsPath c.log_path
  pub readiness : IsSocket c.readiness
  pub startup_delay_ms : c.startup_delay_ms ≤ u64_max

nonempty_raw : (path : Text) → IsRaw path → is_empty path ≡ false → nonempty_path path ≡ some path
unfolding nonempty_path
nonempty_raw path raw there = rw (trim-Solid path (raw-Solid path raw), there) refl

abbrev pub named : List ComponentConfig → List (Text × ComponentConfig)
named [] = []
named (c ∷ cs) = (c.name, c) ∷ named cs

module _ (to_lowercase to_uppercase : Text → Text)
    (casing : IsCasing to_lowercase to_uppercase) where
  module _ (c : SesmanConfig) (m : List (Text × ComponentConfig)) (x : Text)
      (once : behind (codes "component:") x ≡ none) (last : Before x m) where
    abbrev own : ComponentConfig → IniState
    own a = state_at c (component_section x) (m ++ (x, a) ∷ [])

    raw_entry :
        (a d : ComponentConfig) (key v : Text) (n : ℕ)
        → all is_plain key ≡ true
        → is_empty key ≡ false
        → IsRaw v
        → apply_component_key a key v n ≡ ok d
        → parse_line to_lowercase to_uppercase (own a) n (entry key v) ≡ ok (own d)
    raw_entry a d key v n plain there raw e =
        raw_step to_lowercase to_uppercase casing (own a) (own d) key v n plain there raw
          (later_entry to_lowercase to_uppercase c m x once last a d key v n e)

    pub head_read :
        (section command : Text) (args : List Text)
        → all is_plain x ≡ true
        → IsRaw command
        → All IsEntry args
        → Reads to_lowercase to_uppercase
            (state_at c section m)
            (header (component_section x)
              ∷ entry (codes "command") command
              ∷ entry (codes "args") (format_ini_list args)
              ∷ [])
            (own (record (empty_component x) { command = command; args = args }))
    unfolding apply_component_key text_eq
    head_read section command args plain raw items =
        let with_command = record (empty_component x) { command = command } in
        let with_args = record with_command { args = args } in
        let first = first_entry to_lowercase to_uppercase c m x once last in
        let later = later_entry to_lowercase to_uppercase c m x once last in
        reads
          (λ n.
            header_step to_lowercase to_uppercase casing (state_at c section m)
              (component_section x) n plain)
          (reads
            (λ n.
              raw_step to_lowercase to_uppercase casing (state_at c (component_section x) m)
                (own with_command) (codes "command") command n refl refl raw
                (first with_command (codes "command") command n refl))
            (reads
              (λ n.
                list_step to_lowercase to_uppercase casing (own with_command) (own with_args)
                  (codes "args") args n refl refl (items_of args items)
                  (later with_command with_args (codes "args") (format_ini_list args) n
                    (rw (parse-format_list args (items_of args items)) refl)))
              reads_nothing))

    pub working_dir_read :
        (a : ComponentConfig) (path : Option Text)
        → IsPath path
        → Reads to_lowercase to_uppercase
            (own (record a { working_dir = none }))
            (optional_line (codes "working_dir") path)
            (own (record a { working_dir = path }))
    unfolding apply_component_key text_eq
    working_dir_read a none h = reads_nothing
    working_dir_read a (some path) h =
        reads
          (λ n.
            raw_entry (record a { working_dir = none }) (record a { working_dir = some path })
              (codes "working_dir") path n refl refl h.0 (rw (nonempty_raw path h.0 h.1) refl))
          reads_nothing

    pub log_path_read :
        (a : ComponentConfig) (path : Option Text)
        → IsPath path
        → Reads to_lowercase to_uppercase
            (own (record a { log_path = none }))
            (optional_line (codes "log_path") path)
            (own (record a { log_path = path }))
    unfolding apply_component_key text_eq
    log_path_read a none h = reads_nothing
    log_path_read a (some path) h =
        reads
          (λ n.
            raw_entry (record a { log_path = none }) (record a { log_path = some path })
              (codes "log_path") path n refl refl h.0 (rw (nonempty_raw path h.0 h.1) refl))
          reads_nothing

    pub readiness_read :
        (a : ComponentConfig) (r : ReadinessCheck)
        → IsSocket r
        → Reads to_lowercase to_uppercase
            (own a)
            (readiness_lines r)
            (own (record a { readiness = r }))
    unfolding apply_component_key text_eq readiness_of
    readiness_read a process_alive_check h =
        reads
          (λ n.
            raw_entry a (record a { readiness = process_alive_check }) (codes "readiness")
              (codes "process_alive") n refl refl (plain-IsRaw (codes "process_alive") refl) refl)
          reads_nothing
    readiness_read a no_check h =
        reads
          (λ n.
            raw_entry a (record a { readiness = no_check }) (codes "readiness") (codes "none") n
              refl refl (plain-IsRaw (codes "none") refl) refl)
          reads_nothing
    readiness_read a (unix_socket path) h =
        let unbound = record a { readiness = unix_socket [] } in
        reads
          (λ n.
            raw_entry a unbound (codes "readiness") (codes "unix_socket") n refl refl
              (plain-IsRaw (codes "unix_socket") refl) refl)
          (reads
            (λ n.
              raw_entry unbound (record a { readiness = unix_socket path }) (codes "readiness_path")
                path n refl refl h refl)
            reads_nothing)

    show_bool-IsRaw : (b : Bool) → IsRaw (show_bool b)
    show_bool-IsRaw true = plain-IsRaw (codes "true") refl
    show_bool-IsRaw false = plain-IsRaw (codes "false") refl

    parse-show_bool : (b : Bool) → parse_bool (show_bool b) ≡ some b
    unfolding parse_bool text_eq
    parse-show_bool true = refl
    parse-show_bool false = refl

    pub end_read :
        (a : ComponentConfig) (required : Bool) (delay : ℕ)
        → delay ≤ u64_max
        → Reads to_lowercase to_uppercase
            (own a)
            (entry (codes "required") (show_bool required)
              ∷ entry (codes "startup_delay_ms") (show_unsigned delay)
              ∷ []
              ∷ [])
            (own (record a { required = required; startup_delay_ms = delay }))
    unfolding apply_component_key text_eq
    end_read a required delay le =
        let with_required = record a { required = required } in
        let done = record with_required { startup_delay_ms = delay } in
        reads
          (λ n.
            raw_entry a with_required (codes "required") (show_bool required) n refl refl
              (show_bool-IsRaw required) (rw (parse-show_bool required) refl))
          (reads
            (λ n.
              number_step to_lowercase to_uppercase casing (own with_required) (own done)
                (codes "startup_delay_ms") u64_max delay n refl refl le
                (λ e.
                  later_entry to_lowercase to_uppercase c m x once last with_required done
                    (codes "startup_delay_ms") (show_unsigned delay) n (rw e refl)))
            (reads (λ n. parse_blank to_lowercase to_uppercase (own done) n) reads_nothing))

    pub own_variables_read :
        (a : ComponentConfig) (env : List (Text × Text))
        → behind (codes "component_env:") x ≡ none
        → All IsVariable env
        → Reads to_lowercase to_uppercase
            (state_at c (env_section x) (m ++ (x, a) ∷ []))
            (variable_lines env)
            (state_at c (env_section x) (m ++ (x, record a { env = put_all env a.env }) ∷ []))
    unfolding variable_lines put_all
    own_variables_read a [] env_once h =
        reads (λ n. parse_blank to_lowercase to_uppercase _ n) reads_nothing
    own_variables_read a ((k, v) ∷ env) env_once h =
        let next = record a { env = put k v a.env } in
        reads
          (λ n.
            variable_step to_lowercase to_uppercase casing
              (state_at c (env_section x) (m ++ (x, a) ∷ []))
              (state_at c (env_section x) (m ++ (x, next) ∷ [])) k v n h.0.0 h.0.1 h.0.2
              (later_variable to_lowercase to_uppercase c m x once last a (to_lowercase k) v n
                  env_once
                ∙ ap
                    (λ (key : Text). ok (
                      state_at c (env_section x)
                        (m ++ (x, record a { env = put key v a.env }) ∷ [])))
                    (casing.variable_back k h.0.0)))
          (own_variables_read next env env_once h.1)
