-- ===== src/Portal/Tests.antt =====
-- The portal's sessions at concrete requests.
use cheirizo.Prelude.{true, false, some, List, [], ◌∷◌, ◌≡◌, refl, text_eq}
use cheirizo.Prelude.Maps.{lookup, remove}
use cheirizo.Portal.Types.{DeviceTypes, err, session_limit_exceeded, started}
use cheirizo.Portal.Session.{Session, not_persistent, persistent, new_session}
use cheirizo.Portal.Session.Lifecycle.{
  Call, selects_devices, starts, connects_to_eis, closes, transitions, calls, IsSettled, IsSound,
  calls-IsSettled, calls-IsSound, call,
}
use cheirizo.Portal.Manager.{
  SessionManager, with_config, create_session, close_app_sessions, close_sender_sessions,
  cleanup_stale_sessions, has_app, has_sender, is_stale, session_count, update_session,
  write_session, close_session,
}
use cheirizo.Portal.Manager.Counted.{IsCounted}
use cheirizo.Portal.Manager.Requests.{
  Request, creates, updates, serve, serve_all, serve_all-IsCounted, ClosesExactly, closing_exact,
}

abbrev keyboard_only : DeviceTypes
keyboard_only = record { keyboard = true; pointer = false; touchscreen = false }

abbrev fresh_session : Session
fresh_session = new_session (1 ∷ []) (2 ∷ []) (3 ∷ []) 100

abbrev session_calls : List Call
session_calls =
    selects_devices keyboard_only
    ∷ starts [] 120
    ∷ transitions started 150
    ∷ connects_to_eis 7
    ∷ closes
    ∷ []

closed_session : (calls fresh_session session_calls).eis_context_id ≡ some 7
unfolding calls call new_session
closed_session = refl

calls-IsSound_example : IsSound true (calls fresh_session session_calls)
calls-IsSound_example = calls-IsSound (1 ∷ []) (2 ∷ []) (3 ∷ []) 100 session_calls

-- A direct transition to the state that a session is in sets the time of its start again.
restarted :
    ((calls fresh_session (selects_devices keyboard_only ∷ starts [] 120 ∷ [])).started_at
      ≡ some 120)
    × ((calls fresh_session session_calls).started_at ≡ some 150)
unfolding calls call new_session
restarted = (refl, refl)

abbrev running : Session
running = record fresh_session { state = started }

calls-IsSettled_example : IsSettled true running (calls running session_calls)
calls-IsSettled_example = calls-IsSettled running session_calls refl

-- One application has two sessions, another one, with at most two each.
abbrev requests : List Request
requests =
    creates (1 ∷ []) (50 ∷ []) (60 ∷ []) not_persistent 100
    ∷ creates (2 ∷ []) (50 ∷ []) (60 ∷ []) not_persistent 200
    ∷ creates (3 ∷ []) (51 ∷ []) (61 ∷ []) persistent 300
    ∷ creates (4 ∷ []) (51 ∷ []) (60 ∷ []) persistent 300
    ∷ updates (1 ∷ []) (selects_devices keyboard_only)
    ∷ []

abbrev manager : SessionManager
manager = serve_all (with_config 2) requests

three_sessions : session_count manager ≡ 3
unfolding session_count serve_all serve update_session write_session create_session with_config
    lookup text_eq
three_sessions = refl

serve_all-IsCounted_example : IsCounted (serve_all (with_config 2) requests)
serve_all-IsCounted_example = serve_all-IsCounted 2 requests

manager-IsCounted : IsCounted manager
manager-IsCounted = serve_all-IsCounted 2 requests

closing_exact_example :
    ClosesExactly (has_app (60 ∷ [])) manager (close_app_sessions manager (60 ∷ []))
    × ClosesExactly (has_sender (51 ∷ [])) manager (close_sender_sessions manager (51 ∷ []))
    × ClosesExactly (is_stale 150 300) manager (cleanup_stale_sessions manager 150 300)
closing_exact_example = closing_exact manager (60 ∷ []) (51 ∷ []) 150 300 manager-IsCounted

stale_closed : session_count (cleanup_stale_sessions manager 150 300).0 ≡ 2
unfolding session_count cleanup_stale_sessions serve_all serve update_session write_session
    create_session with_config lookup text_eq call close_session remove
stale_closed = refl

limit_hit :
    (create_session manager (9 ∷ []) (50 ∷ []) (60 ∷ []) persistent 400).1
    ≡ err (session_limit_exceeded (60 ∷ []) 2)
unfolding create_session serve_all serve update_session with_config lookup text_eq
limit_hit = refl
