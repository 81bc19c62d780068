-- ===== src/Supervision/Fatal.antt =====
-- A lost session stays lost.
use cheirizo.Prelude.{Bool, true, false, ◌≡◌, arith, List, [], ◌∷◌, All}
use cheirizo.Supervision.{
  SessionStatus, SessionStatusEvent, session, invalid, is_failed, aspect_health_changed,
  apply_event, closed, invalidated, bus_name_lost,
}
use cheirizo.Supervision.Monitor.{apply_events}

-- The one event that can set the health of the session aspect to something else than a failure.
abbrev pub sets_session : SessionStatusEvent → Bool
sets_session (aspect_health_changed session _) = true
sets_session _ = false

step_keeps_failure :
    (s : SessionStatus) (e : SessionStatusEvent)
    → sets_session e ≡ false
    → is_failed s.session ≡ true
    → (is_failed (apply_event s e).0.session ≡ true) × ((apply_event s e).0.overall ≡ invalid)
unfolding apply_event
step_keeps_failure s e keeps lost = ground arith

-- Once the session aspect has failed and the overall status is invalid, both stay so through any
-- events but a health report about the session aspect itself.
pub apply_events-lost :
    (s : SessionStatus) (es : List SessionStatusEvent)
    → All (λ e. sets_session e ≡ false) es
    → is_failed s.session ≡ true
    → s.overall ≡ invalid
    → (is_failed (apply_events s es).session ≡ true) × ((apply_events s es).overall ≡ invalid)
unfolding apply_events
apply_events-lost s [] keep lost over = (lost, over)
apply_events-lost s (e ∷ es) keep lost over =
    let (lost', over') = step_keeps_failure s e keep.0 lost in
    apply_events-lost (apply_event s e).0 es keep.1 lost' over'

-- Each of the three events that end a session fails it, whatever the status was.
abbrev pub ends_session : SessionStatusEvent → Bool
ends_session (closed reason) = true
ends_session (invalidated reason) = true
ends_session (bus_name_lost bus_name) = true
ends_session _ = false

ends_session_fails :
    (s : SessionStatus) (e : SessionStatusEvent)
    → ends_session e ≡ true
    → (is_failed (apply_event s e).0.session ≡ true) × ((apply_event s e).0.overall ≡ invalid)
unfolding apply_event
ends_session_fails s e ends = ground arith

-- After the compositor closes or invalidates the session or loses its bus name, the status is
-- invalid and the session failed, through all later events but a health report about the session.
pub session_end_is_fatal :
    (s : SessionStatus) (e : SessionStatusEvent) (es : List SessionStatusEvent)
    → ends_session e ≡ true
    → All (λ e'. sets_session e' ≡ false) es
    → let s' = apply_events s (e ∷ es) in (is_failed s'.session ≡ true) × (s'.overall ≡ invalid)
unfolding apply_events
session_end_is_fatal s e es ends keep =
    let (lost, over) = ends_session_fails s e ends in
    apply_events-lost (apply_event s e).0 es keep lost over
