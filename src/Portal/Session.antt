-- ===== src/Portal/Session.antt =====
-- src/desktop/portal/xdg_desktop/session/state.rs. Times are milliseconds, and a call that reads the
-- clock takes its value. A method returns the new session and its result.
pub mod Lifecycle
use cheirizo.Prelude.{
  ℕ, Bool, true, false, not, ◌&&◌, ◌||◌, ◌==◌, if◌then◌else◌, Option, none, some, List, [], Text,
  map,
}
use cheirizo.Portal.Types.{
  DeviceTypes, SourceInfo, StreamInfo, SessionState, init, started, closed, Result, ok, err,
  invalid_state,
}

pub record RestoreData : Type 0 where
  pub vendor : Text
  pub version : ℕ
  pub output_names : List Text

pub data PersistMode : Type 0 where
  not_persistent persistent transient : PersistMode

unfoldable pub from_dbus : ℕ → PersistMode
from_dbus value =
    if value == 1 then transient else if value == 2 then persistent else not_persistent

unfoldable pub to_dbus : PersistMode → ℕ
to_dbus not_persistent = 0
to_dbus transient = 1
to_dbus persistent = 2

pub record Session : Type 0 where
  pub id : Text
  pub sender : Text
  pub app_id : Text
  pub state : SessionState
  pub device_types : DeviceTypes
  pub devices_selected : Bool
  pub uses_eis : Bool
  pub eis_context_id : Option ℕ
  pub sources : List SourceInfo
  pub sources_selected : Bool
  pub streams : List StreamInfo
  pub clipboard_enabled : Bool
  pub clipboard_requested : Bool
  pub persist_mode : PersistMode
  pub restore_token : Option Text
  pub restore_data : Option RestoreData
  pub created_at : ℕ
  pub started_at : Option ℕ
  pub last_activity : ℕ

-- `new` of a session, at a time.
unfoldable pub new_session : Text → Text → Text → ℕ → Session
new_session id sender app_id now = record {
  id = id;
  sender = sender;
  app_id = app_id;
  state = init;
  device_types = record { keyboard = false; pointer = false; touchscreen = false };
  devices_selected = false;
  uses_eis = false;
  eis_context_id = none;
  sources = [];
  sources_selected = false;
  streams = [];
  clipboard_enabled = false;
  clipboard_requested = false;
  persist_mode = not_persistent;
  restore_token = none;
  restore_data = none;
  created_at = now;
  started_at = none;
  last_activity = now;
}

abbrev pub is_init : SessionState → Bool
is_init init = true
is_init started = false
is_init closed = false

abbrev pub is_started : SessionState → Bool
is_started init = false
is_started started = true
is_started closed = false

abbrev pub is_closed : SessionState → Bool
is_closed init = false
is_closed started = false
is_closed closed = true

unfoldable pub touch : Session → ℕ → Session
touch s now = record s { last_activity = now }

unfoldable pub can_select_devices : Session → Bool
can_select_devices s = is_init s.state

unfoldable pub can_select_sources : Session → Bool
can_select_sources s = is_init s.state

unfoldable pub can_request_clipboard : Session → Bool
can_request_clipboard s = not (is_closed s.state)

unfoldable pub can_start : Session → Bool
can_start s = is_init s.state && (s.devices_selected || s.sources_selected)

unfoldable pub can_connect_to_eis : Session → Bool
can_connect_to_eis s = is_started s.state && (s.devices_selected && not s.uses_eis)

-- The state machine: from the first state to the second.
unfoldable pub is_valid_transition : SessionState → SessionState → Bool
is_valid_transition init started = true
is_valid_transition init closed = true
is_valid_transition started closed = true
is_valid_transition closed closed = true
is_valid_transition init init = true
is_valid_transition started started = true
is_valid_transition started init = false
is_valid_transition closed init = false
is_valid_transition closed started = false

abbrev pub Outcome : Type 0
Outcome = Session × Result (Unit {0})

unfoldable pub transition_to : Session → SessionState → ℕ → Outcome
unfolding is_valid_transition
transition_to s new now =
    if is_valid_transition s.state new
    then (
      if is_started new
          then record s { state = new; started_at = some now }
          else record s { state = new },
      ok tt,
    )
    else (s, err (invalid_state s.state))

unfoldable pub select_devices : Session → DeviceTypes → Outcome
unfolding can_select_devices
select_devices s devices =
    if can_select_devices s
    then (record s { device_types = devices; devices_selected = true }, ok tt)
    else (s, err (invalid_state s.state))

unfoldable pub select_sources : Session → List SourceInfo → Outcome
unfolding can_select_sources
select_sources s sources =
    if can_select_sources s
    then (record s { sources = sources; sources_selected = true }, ok tt)
    else (s, err (invalid_state s.state))

unfoldable pub request_clipboard : Session → Outcome
unfolding can_request_clipboard
request_clipboard s =
    if can_request_clipboard s
    then (record s { clipboard_requested = true; clipboard_enabled = true }, ok tt)
    else (s, err (invalid_state s.state))

unfoldable pub start : Session → List StreamInfo → ℕ → Outcome
unfolding can_start transition_to
start s streams now =
    if can_start s
    then transition_to (record s { streams = streams }) started now
    else (s, err (invalid_state s.state))

unfoldable pub connect_to_eis : Session → ℕ → Outcome
unfolding can_connect_to_eis
connect_to_eis s context_id =
    if can_connect_to_eis s
    then (record s { uses_eis = true; eis_context_id = some context_id }, ok tt)
    else (s, err (invalid_state s.state))

unfoldable pub close : Session → Session
close s = if is_closed s.state then s else record s { state = closed }

unfoldable pub stream_ids : Session → List ℕ
stream_ids s = map (λ (stream : StreamInfo). stream.node_id) s.streams
