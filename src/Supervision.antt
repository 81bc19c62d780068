-- ===== src/Supervision.antt =====
-- src/rdp/session/supervision: the health of a session's aspects, the events that change it, and
-- the monitor that applies them. Log lines are left out.
mod Tests
pub mod Overall
pub mod Fatal
pub mod Monitor
use Prim.Native.String.{String}
use text.Mathlib.Text.{◌==◌}
use cheirizo.Prelude.{ℕ, Bool, true, false, not, ◌||◌, if◌then◌else◌}

pub data SessionAspectId : Type 0 where
  session graphics input clipboard : SessionAspectId

-- The texts of the reasons, by the place that makes them; `reported` is a text handed in.
pub data Reason : Type 0 where
  reported : String → Reason
  session_closed session_invalidated : Reason
  no_frames never_delivered : ℕ → Reason
  stream_paused stream_error : Reason
  compositor_lost : String → Reason
  compositor_lost_input compositor_restarted : Reason

pub data AspectHealth : Type 0 where
  healthy not_applicable : AspectHealth
  degraded failed : Reason → AspectHealth

abbrev pub is_healthy : AspectHealth → Bool
is_healthy healthy = true
is_healthy not_applicable = true
is_healthy (degraded r) = false
is_healthy (failed r) = false

abbrev pub is_failed : AspectHealth → Bool
is_failed (failed r) = true
is_failed healthy = false
is_failed not_applicable = false
is_failed (degraded r) = false

pub data OverallStatus : Type 0 where
  all_healthy some_degraded invalid recovering : OverallStatus

pub record SessionStatus : Type 0 where
  pub graphics : AspectHealth
  pub input : AspectHealth
  pub clipboard : AspectHealth
  pub session : AspectHealth
  pub overall : OverallStatus

abbrev pub default_status : SessionStatus
default_status = record {
  graphics = healthy;
  input = healthy;
  clipboard = healthy;
  session = healthy;
  overall = all_healthy;
}

pub data GraphicsStreamState : Type 0 where
  streaming paused error : GraphicsStreamState

pub data SessionStatusEvent : Type 0 where
  aspect_health_changed : SessionAspectId → AspectHealth → SessionStatusEvent
  closed invalidated : String → SessionStatusEvent
  graphics_stream_state_changed : GraphicsStreamState → SessionStatusEvent
  video_frame_stalled video_frame_never_started : ℕ → SessionStatusEvent
  video_frame_resumed : SessionStatusEvent
  input_failed : String → Bool → SessionStatusEvent
  input_recovered : SessionStatusEvent
  clipboard_failed : String → SessionStatusEvent
  clipboard_recovered : SessionStatusEvent
  bus_name_lost : String → SessionStatusEvent
  eis_stream_ended : String → SessionStatusEvent
  subsystem_not_available : String → SessionStatusEvent

unfoldable pub apply_aspect_health : SessionAspectId → AspectHealth → SessionStatus → SessionStatus
apply_aspect_health session health s = record s { session = health }
apply_aspect_health graphics health s = record s { graphics = health }
apply_aspect_health input health s = record s { input = health }
apply_aspect_health clipboard health s = record s { clipboard = health }

unfoldable pub apply_graphics_stream_state : GraphicsStreamState → SessionStatus → SessionStatus
apply_graphics_stream_state streaming s = record s { graphics = healthy }
apply_graphics_stream_state paused s = record s { graphics = degraded stream_paused }
apply_graphics_stream_state error s = record s { graphics = failed stream_error }

unfoldable pub mark_subsystem_not_available : String → SessionStatus → SessionStatus
mark_subsystem_not_available subsystem s =
    if subsystem == "clipboard"
    then record s { clipboard = not_applicable }
    else if subsystem == "input"
    then record s { input = not_applicable }
    else s

-- A recovery leaves what is healthy or does not apply as it is.
abbrev pub recovered : AspectHealth → AspectHealth
recovered health = if not (is_healthy health) then healthy else health

unfoldable pub apply_change : SessionStatusEvent → SessionStatus → SessionStatus
unfolding apply_aspect_health apply_graphics_stream_state mark_subsystem_not_available
apply_change (aspect_health_changed aspect health) s = apply_aspect_health aspect health s
apply_change (closed reason) s = record s {
  session = failed (reported reason);
  input = failed session_closed;
  clipboard = failed session_closed;
}
apply_change (invalidated reason) s = record s {
  session = failed (reported reason);
  input = failed session_invalidated;
  clipboard = failed session_invalidated;
}
apply_change (graphics_stream_state_changed state) s = apply_graphics_stream_state state s
apply_change (video_frame_stalled ms) s = record s { graphics = degraded (no_frames ms) }
apply_change (video_frame_never_started ms) s = record s { graphics = failed (never_delivered ms) }
apply_change video_frame_resumed s = record s { graphics = recovered s.graphics }
apply_change (input_failed reason permanent) s =
    if permanent
    then record s { input = failed (reported reason) }
    else record s { input = degraded (reported reason) }
apply_change input_recovered s = record s { input = recovered s.input }
apply_change (clipboard_failed reason) s = record s { clipboard = failed (reported reason) }
apply_change clipboard_recovered s = record s { clipboard = recovered s.clipboard }
apply_change (bus_name_lost bus_name) s = record s {
  session = failed (compositor_lost bus_name);
  input = failed compositor_lost_input;
  graphics = degraded compositor_restarted;
}
apply_change (eis_stream_ended reason) s = record s { input = failed (reported reason) }
apply_change (subsystem_not_available subsystem) s = mark_subsystem_not_available subsystem s

unfoldable pub recompute_overall : SessionStatus → SessionStatus
recompute_overall s =
    if is_failed s.session
    then record s { overall = invalid }
    else if is_failed s.graphics || is_failed s.input
    then record s { overall = invalid }
    else if not (is_healthy s.graphics)
        || not (is_healthy s.input)
        || not (is_healthy s.clipboard)
        || not (is_healthy s.session)
    then record s { overall = some_degraded }
    else record s { overall = all_healthy }

-- The new status, with the old and the new overall status.
unfoldable pub apply_event :
    SessionStatus → SessionStatusEvent → SessionStatus × OverallStatus × OverallStatus
unfolding apply_change recompute_overall
apply_event s event =
    let s' = recompute_overall (apply_change event s) in (s', s.overall, s'.overall)
