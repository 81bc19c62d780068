-- ===== src/Portal/Session/Lifecycle.antt =====
-- The calls that a portal session takes, in any order, and what they come to.
use cheirizo.Prelude.{
  ℕ, Bool, any, ◌⊎◌, true, false, ◌||◌, none, List, [], ◌∷◌, Text, ◌≡◌, ◌≢◌, refl, arith,
}
use cheirizo.Portal.Types.{
  DeviceTypes, SourceInfo, StreamInfo, SessionState, init, started, closed, ok,
}
use cheirizo.Portal.Session.{
  Session, Outcome, touch, select_devices, select_sources, request_clipboard, start, connect_to_eis,
  close, transition_to, is_init, is_started, is_closed, new_session,
}

-- A call of one of the public methods that change a session.
pub data Call : Type 0 where
  touches : ℕ → Call
  selects_devices : DeviceTypes → Call
  selects_sources : List SourceInfo → Call
  requests_clipboard : Call
  starts : List StreamInfo → ℕ → Call
  connects_to_eis : ℕ → Call
  closes : Call
  transitions : SessionState → ℕ → Call

unfoldable pub call : Session → Call → Outcome
unfolding touch select_devices select_sources request_clipboard start connect_to_eis close
    transition_to
call s (touches now) = (touch s now, ok tt)
call s (selects_devices devices) = select_devices s devices
call s (selects_sources sources) = select_sources s sources
call s requests_clipboard = request_clipboard s
call s (starts streams now) = start s streams now
call s (connects_to_eis id) = connect_to_eis s id
call s closes = (close s, ok tt)
call s (transitions new now) = transition_to s new now

-- The call is a direct transition to the started state.
abbrev pub is_direct_start : Call → Bool
is_direct_start (touches now) = false
is_direct_start (selects_devices devices) = false
is_direct_start (selects_sources sources) = false
is_direct_start requests_clipboard = false
is_direct_start (starts streams now) = false
is_direct_start (connects_to_eis id) = false
is_direct_start closes = false
is_direct_start (transitions new now) = is_started new

unfoldable pub calls : Session → List Call → Session
calls s [] = s
calls s (c ∷ cs) = calls (call s c).0 cs

-- What holds of a session between calls; `direct` tells whether one of the calls before was a direct
-- transition to the started state.
pub record IsSound (direct : Bool) (s : Session) : Type 0 where
  pub selected :
      is_started s.state ≡ true → ((s.devices_selected || s.sources_selected) || direct) ≡ true
  pub start_time : is_started s.state ≡ true → s.started_at ≢ none
  pub eis_devices : s.uses_eis ≡ true → s.devices_selected ≡ true
  pub eis_context : s.uses_eis ≡ true → s.eis_context_id ≢ none
  pub clipboard : s.clipboard_enabled ≡ s.clipboard_requested
  pub unstarted : s.started_at ≡ none → s.streams ≡ []

call-IsSound :
    (s : Session) (c : Call) (direct : Bool)
    → IsSound direct s
    → IsSound (direct || is_direct_start c) (call s c).0
unfolding call
call-IsSound s (touches now) direct v = ground arith
call-IsSound s (selects_devices devices) direct v = ground arith
call-IsSound s (selects_sources sources) direct v = ground arith
call-IsSound s requests_clipboard direct v = ground arith
call-IsSound s (starts streams now) direct v = ground arith
call-IsSound s (connects_to_eis id) direct v = ground arith
call-IsSound s closes direct v = ground arith
call-IsSound s (transitions init now) direct v = ground arith
call-IsSound s (transitions started now) direct v = ground arith
call-IsSound s (transitions closed now) direct v = ground arith

new_session-IsSound :
    (id sender app_id : Text) (now : ℕ) → IsSound false (new_session id sender app_id now)
unfolding new_session
new_session-IsSound id sender app_id now = ground arith

or_assoc : (a b c : Bool) → ((a || b) || c) ≡ (a || (b || c))
or_assoc true b c = refl
or_assoc false b c = refl

or_false : (a : Bool) → (a || false) ≡ a
or_false true = refl
or_false false = refl

calls_keep :
    (s : Session) (cs : List Call) (direct : Bool)
    → IsSound direct s
    → IsSound (direct || any is_direct_start cs) (calls s cs)
unfolding calls
calls_keep s [] direct v = rw (or_false direct) v
calls_keep s (c ∷ cs) direct v =
    rw⁻¹ (or_assoc direct (is_direct_start c) (any is_direct_start cs))
      (calls_keep (call s c).0 cs (direct || is_direct_start c) (call-IsSound s c direct v))

-- What is settled once a session has left its first state; `direct` tells whether one of the calls
-- since was a direct transition to the started state.
pub record IsSettled (direct : Bool) (s t : Session) : Type 0 where
  pub devices : t.device_types ≡ s.device_types
  pub devices_selected : t.devices_selected ≡ s.devices_selected
  pub sources : t.sources ≡ s.sources
  pub streams : t.streams ≡ s.streams
  pub started_at : (t.started_at ≡ s.started_at) ⊎ (direct ≡ true)
  pub closed_started_at : is_closed s.state ≡ true → t.started_at ≡ s.started_at
  pub same_id : t.id ≡ s.id
  pub same_app : t.app_id ≡ s.app_id
  pub same_sender : t.sender ≡ s.sender
  pub left_first : is_init t.state ≡ false
  pub stays_closed : is_closed s.state ≡ true → is_closed t.state ≡ true

IsSettled-trans :
    (a b : Bool) (r s t : Session) → IsSettled a r s → IsSettled b s t → IsSettled (a || b) r t
IsSettled-trans a b r s t v w = ground arith

call-IsSettled :
    (s : Session) (c : Call)
    → is_init s.state ≡ false
    → IsSettled (is_direct_start c) s (call s c).0
unfolding call
call-IsSettled s (touches now) v = ground arith
call-IsSettled s (selects_devices devices) v = ground arith
call-IsSettled s (selects_sources sources) v = ground arith
call-IsSettled s requests_clipboard v = ground arith
call-IsSettled s (starts streams now) v = ground arith
call-IsSettled s (connects_to_eis id) v = ground arith
call-IsSettled s closes v = ground arith
call-IsSettled s (transitions init now) v = ground arith
call-IsSettled s (transitions started now) v = ground arith
call-IsSettled s (transitions closed now) v = ground arith

-- Once a session has left its first state, no calls bring it back or change what it captures and
-- controls, its streams or its owner. The time of its start changes only if a direct
-- `transition_to` of the started state is among the calls, and not in a closed session, which
-- stays closed.
pub calls-IsSettled :
    (s : Session) (cs : List Call)
    → is_init s.state ≡ false
    → IsSettled (any is_direct_start cs) s (calls s cs)
unfolding calls
calls-IsSettled s [] v = ground arith
calls-IsSettled s (c ∷ cs) v =
    let first = call-IsSettled s c v in
    IsSettled-trans _ _ s (call s c).0 _ first (calls-IsSettled (call s c).0 cs first.left_first)

-- Whatever calls a new session takes: it is in the started state only with a time on record and
-- with something selected, or if a direct `transition_to` of that state is among the calls; it has
-- streams only with a start on record, uses EIS only with selected devices and a context, and has
-- the clipboard enabled exactly if it was requested.
pub calls-IsSound :
    (id sender app_id : Text) (now : ℕ) (cs : List Call)
    → IsSound (any is_direct_start cs) (calls (new_session id sender app_id now) cs)
calls-IsSound id sender app_id now cs =
    calls_keep _ cs false (new_session-IsSound id sender app_id now)

-- A session stays with the application that asked for it.
pub call-app_id : (s : Session) (c : Call) → (call s c).0.app_id ≡ s.app_id
unfolding call
call-app_id s (touches now) = refl
call-app_id s (selects_devices devices) = ground arith
call-app_id s (selects_sources sources) = ground arith
call-app_id s requests_clipboard = ground arith
call-app_id s (starts streams now) = ground arith
call-app_id s (connects_to_eis id) = ground arith
call-app_id s closes = ground arith
call-app_id s (transitions init now) = ground arith
call-app_id s (transitions started now) = ground arith
call-app_id s (transitions closed now) = ground arith
