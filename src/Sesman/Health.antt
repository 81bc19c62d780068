-- ===== src/Sesman/Health.antt =====
-- src/sesman/mod.rs: whose registry it is, the health of a session, and whether it can serve.
pub mod Serve
use cheirizo.Prelude.{
  ℕ, zero, suc, ◌+◌, Bool, true, false, not, ◌&&◌, ◌||◌, ◌==◌, if◌then◌else◌, Option, none, some,
  List, [], ◌∷◌, ◌++◌, all, any, Text, text_eq,
}
use cheirizo.Sesman.State.{
  SesmanConfig, ComponentConfig, ComponentState, SessionState, SessionHealth, SessionStatus,
  ReadinessCheck, process_alive_check, no_check, unix_socket, missing, healthy, degraded, dead,
}
use cheirizo.Sesman.Process.{Kernel, ProcessSignature, status, process_matches, is_empty}

-- What the host answers at one moment: the kernel, the clock, the account database and the sockets
-- that `unix_socket_ready` takes.
pub record Host : Type 0 where
  pub kernel : Kernel
  pub now : ℕ
  pub uid_for_user : Text → Option ℕ
  pub gid_for_user : Text → Option ℕ
  pub unix_socket_ready : Text → Bool

abbrev pub number_eq : Option ℕ → Option ℕ → Bool
number_eq none none = true
number_eq (some a) (some b) = a == b
number_eq none (some b) = false
number_eq (some a) none = false

abbrev pub opt_text_eq : Option Text → Option Text → Bool
opt_text_eq none none = true
opt_text_eq (some a) (some b) = text_eq a b
opt_text_eq none (some b) = false
opt_text_eq (some a) none = false

abbrev pub command_eq : List Text → List Text → Bool
command_eq [] [] = true
command_eq (a ∷ s) (b ∷ t) = text_eq a b && command_eq s t
command_eq [] (b ∷ t) = false
command_eq (a ∷ s) [] = false

unfoldable pub component_signature : ComponentState → ProcessSignature
component_signature c = record {
  pid = c.pid;
  command = c.command;
  started_at = c.started_at;
  start_ticks = c.start_ticks;
  boot_id = c.boot_id;
  uid = c.uid;
  pgid = c.pgid;
}

unfoldable pub state_belongs_to_config : Host → SesmanConfig → SessionState → Bool
state_belongs_to_config h config s =
    s.version == 2
    && text_eq s.name config.session_name
    && text_eq s.user config.user
    && text_eq s.xdg_runtime_dir config.xdg_runtime_dir
    && opt_text_eq s.boot_id h.kernel.boot_id
    && number_eq s.uid (h.uid_for_user config.user)
    && number_eq s.gid (h.gid_for_user config.user)

abbrev pub find_state : Text → List ComponentState → Option ComponentState
find_state name [] = none
find_state name (c ∷ cs) = if text_eq c.name name then some c else find_state name cs

abbrev pub find_config : Text → List ComponentConfig → Option ComponentConfig
find_config name [] = none
find_config name (c ∷ cs) = if text_eq c.name name then some c else find_config name cs

abbrev pub readiness_holds : Host → ReadinessCheck → Bool
readiness_holds h process_alive_check = true
readiness_holds h no_check = true
readiness_holds h (unix_socket path) = h.unix_socket_ready path

-- `ready` for a component and its record.
unfoldable pub component_ready : Host → ComponentConfig → ComponentState → Bool
component_ready h configured component =
    command_eq component.command (configured.command ∷ configured.args)
    && process_matches h.kernel (component_signature component) status
    && readiness_holds h configured.readiness

-- The loop over the configured components: the dead ones, and how many are alive.
unfoldable pub scan_components : Host → List ComponentState → List ComponentConfig → List Text × ℕ
unfolding component_ready
scan_components h states [] = ([], 0)
scan_components h states (configured ∷ rest) =
    let (gone, alive) = scan_components h states rest in
    elim (find_state configured.name states) [
      | none ↦ if configured.required then (configured.name ∷ gone, alive) else (gone, alive)
      | some component ↦
          if component_ready h configured component
          then (gone, alive + 1)
          else (component.name ∷ gone, alive)
    ]

abbrev pub is_configured : List ComponentConfig → ComponentState → Bool
is_configured configs persisted =
    any (λ (c : ComponentConfig). text_eq c.name persisted.name) configs

-- The loop over the records: those that are no longer configured.
unfoldable pub removed_components : List ComponentConfig → List ComponentState → List Text
removed_components configs [] = []
removed_components configs (persisted ∷ rest) =
    let gone = removed_components configs rest in
    if is_configured configs persisted then gone else persisted.name ∷ gone

-- `session-registry`.
abbrev pub registry_name : Text
registry_name =
    115 ∷ 101 ∷ 115 ∷ 115 ∷ 105 ∷ 111 ∷ 110 ∷ 45 ∷ 114 ∷ 101 ∷ 103 ∷ 105 ∷ 115 ∷ 116 ∷ 114 ∷ 121
    ∷ []

unfoldable pub dead_and_alive : Host → SesmanConfig → SessionState → List Text × ℕ
unfolding scan_components removed_components
dead_and_alive h config s =
    if not (state_belongs_to_config h config s) then (registry_name ∷ [], 0) else (
      (scan_components h s.components config.components).0
          ++ removed_components config.components s.components,
      (scan_components h s.components config.components).1,
    )

abbrev pub health_of : List Text × ℕ → SessionHealth
health_of (gone, alive) = if is_empty gone then healthy else if alive == 0 then dead else degraded

-- `status`, of a registry that can be read.
unfoldable pub session_status : Host → SesmanConfig → Option SessionState → SessionStatus
unfolding dead_and_alive
session_status h config none = record { health = missing; state = none; dead_components = [] }
session_status h config (some s) = record {
  health = health_of (dead_and_alive h config s);
  state = some s;
  dead_components = (dead_and_alive h config s).0;
}

abbrev pub is_optional : List ComponentConfig → Text → Bool
is_optional configs name = elim (find_config name configs) [
  | none ↦ false
  | some c ↦ not c.required
]

unfoldable pub status_can_serve : SesmanConfig → SessionStatus → Bool
status_can_serve config st = elim st.health [
  | healthy ↦ true
  | degraded ↦ all (is_optional config.components) st.dead_components
  | missing ↦ false
  | dead ↦ false
]
