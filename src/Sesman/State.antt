-- ===== src/Sesman/State.antt =====
-- The types of src/sesman/state.rs. Instants are milliseconds, an id is a number, a path is a text.
use cheirizo.Prelude.{ℕ, Bool, Option, none, List, [], Text}

pub record SessionSize : Type 0 where
  pub width : ℕ
  pub height : ℕ

pub record ClientInfo : Type 0 where
  pub peer : Text
  pub connected_at : ℕ
  pub requested_size : Option SessionSize

pub data ReadinessCheck : Type 0 where
  process_alive_check no_check : ReadinessCheck
  unix_socket : Text → ReadinessCheck

pub record ComponentConfig : Type 0 where
  pub name : Text
  pub command : Text
  pub args : List Text
  pub env : List (Text × Text)
  pub working_dir : Option Text
  pub log_path : Option Text
  pub readiness : ReadinessCheck
  pub required : Bool
  pub startup_delay_ms : ℕ

pub record SesmanConfig : Type 0 where
  pub session_name : Text
  pub user : Text
  pub xdg_runtime_dir : Text
  pub state_dir : Text
  pub log_dir : Text
  pub default_size : SessionSize
  pub start_timeout_ms : ℕ
  pub stop_timeout_ms : ℕ
  pub idle_timeout_ms : ℕ
  pub environment : List (Text × Text)
  pub cleanup_paths : List Text
  pub cleanup_globs : List Text
  pub components : List ComponentConfig

pub record ComponentState : Type 0 where
  pub name : Text
  pub pid : ℕ
  pub command : List Text
  pub started_at : ℕ
  pub start_ticks : Option ℕ
  pub boot_id : Option Text
  pub uid : Option ℕ
  pub pgid : Option ℕ
  pub required : Bool
  pub process_group : Bool

pub record SessionState : Type 0 where
  pub version : ℕ
  pub id : ℕ
  pub name : Text
  pub user : Text
  pub created_at : ℕ
  pub updated_at : ℕ
  pub xdg_runtime_dir : Text
  pub boot_id : Option Text
  pub uid : Option ℕ
  pub gid : Option ℕ
  pub default_size : SessionSize
  pub requested_size : Option SessionSize
  pub last_client : Option ClientInfo
  pub active_clients : ℕ
  pub last_disconnected_at : Option ℕ
  pub idle_deadline_at : Option ℕ
  pub components : List ComponentState

pub data SessionHealth : Type 0 where
  missing healthy degraded dead : SessionHealth

-- The snapshot; its path is that of the configuration.
pub record SessionStatus : Type 0 where
  pub health : SessionHealth
  pub state : Option SessionState
  pub dead_components : List Text

pub record EnsureOptions : Type 0 where
  pub force_restart : Bool
  pub requested_size : Option SessionSize
  pub client_peer : Option Text
  pub client_connected : Bool

-- `SessionState::new`, at a time, with a fresh id and what the host says of the boot and the user.
unfoldable pub new_state : SesmanConfig → ℕ → ℕ → Option Text → Option ℕ → Option ℕ → SessionState
new_state config now id boot_id uid gid = record {
  version = 2;
  id = id;
  name = config.session_name;
  user = config.user;
  created_at = now;
  updated_at = now;
  xdg_runtime_dir = config.xdg_runtime_dir;
  boot_id = boot_id;
  uid = uid;
  gid = gid;
  default_size = config.default_size;
  requested_size = none;
  last_client = none;
  active_clients = 0;
  last_disconnected_at = none;
  idle_deadline_at = none;
  components = [];
}
