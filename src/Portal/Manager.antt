-- ===== src/Portal/Manager.antt =====
-- src/desktop/portal/xdg_desktop/session/manager.rs. Times are milliseconds. The sessions are a list
-- of entries with distinct keys, whose order stands for the iteration order of the hash map, and the
-- counts are a function of the application. The generated handle, a counter and a random part, is
-- an argument.
pub mod Counted
pub mod Closing
pub mod Requests
use cheirizo.Prelude.{
  ℕ, suc, ◌+◌, ◌-◌, ◌*◌, Bool, true, false, not, ◌&&◌, ltb, leb, ◌==◌, if◌then◌else◌, Option, none,
  some, List, [], ◌∷◌, Text, text_eq, length, map,
}
use cheirizo.Prelude.Maps.{lookup, remove}
use cheirizo.Portal.Types.{
  SessionState, init, started, closed, Result, ok, err, PortalError, invalid_session,
  session_not_found, session_limit_exceeded, permission_denied,
}
use cheirizo.Portal.Session.{Session, PersistMode, new_session, close, is_closed}

pub record SessionManager : Type 0 where
  pub sessions : List (Text × Session)
  pub app_session_count : Text → Option ℕ
  pub max_sessions_per_app : ℕ

abbrev pub default_max_sessions_per_app : ℕ
default_max_sessions_per_app = 10

unfoldable pub with_config : ℕ → SessionManager
with_config max_sessions = record {
  sessions = [];
  app_session_count = λ app. none;
  max_sessions_per_app = max_sessions;
}

abbrev pub or_zero : Option ℕ → ℕ
or_zero none = 0
or_zero (some n) = n

abbrev pub put_count : (Text → Option ℕ) → Text → Option ℕ → Text → Option ℕ
put_count counts app n other = if text_eq app other then n else counts other

unfoldable pub enforce_session_limit : SessionManager → Text → Result (Unit {0})
enforce_session_limit m app =
    if leb m.max_sessions_per_app (or_zero (m.app_session_count app))
    then err (session_limit_exceeded app m.max_sessions_per_app)
    else ok tt

-- The part of `create_session` that changes the manager.
unfoldable pub insert_session : SessionManager → Text → Session → SessionManager
insert_session m handle session = record m {
  sessions = (handle, session) ∷ m.sessions;
  app_session_count =
      put_count m.app_session_count session.app_id
        (some (or_zero (m.app_session_count session.app_id) + 1));
}

abbrev pub persisting : Session → PersistMode → Session
persisting s mode = record s { persist_mode = mode }

unfoldable pub create_session :
    SessionManager → Text → Text → Text → PersistMode → ℕ → SessionManager × Result Session
unfolding enforce_session_limit insert_session new_session
create_session m handle sender app mode now = elim (enforce_session_limit m app) [
  | err e ↦ (m, err e)
  | ok u ↦ elim (lookup handle m.sessions) [
    | some old ↦ (m, err (invalid_session handle))
    | none ↦
        let session = persisting (new_session handle sender app now) mode in
        (insert_session m handle session, ok session)
  ]
]

unfoldable pub get_session : SessionManager → Text → Option Session
get_session m handle = lookup handle m.sessions

-- Writing through the reference that `get_session_mut` hands out.
unfoldable pub write_session :
    (Session → Session) → Text → List (Text × Session) → List (Text × Session)
write_session f k [] = []
write_session f k ((j, s) ∷ m) = if text_eq j k then (j, f s) ∷ m else (j, s) ∷ write_session f k m

unfoldable pub update_session : SessionManager → Text → (Session → Session) → SessionManager
update_session m handle f = record m { sessions = write_session f handle m.sessions }

unfoldable pub validate_session : SessionManager → Text → Text → Text → Result (Unit {0})
validate_session m handle app sender = elim (lookup handle m.sessions) [
  | none ↦ err (session_not_found handle)
  | some s ↦
      if not (text_eq s.app_id app)
      then err (permission_denied app s.app_id)
      else if not (text_eq s.sender sender)
      then err (permission_denied sender s.sender)
      else ok tt
]

-- The count of an application after one of its sessions is gone: an entry of 0 is dropped.
abbrev pub decremented : Option ℕ → Option ℕ
decremented none = none
decremented (some n) = if n - 1 == 0 then none else some (n - 1)

unfoldable pub drop_session : SessionManager → Text → Session → SessionManager
drop_session m handle s = record m {
  sessions = remove handle m.sessions;
  app_session_count =
      put_count m.app_session_count s.app_id (decremented (m.app_session_count s.app_id));
}

unfoldable pub close_session : SessionManager → Text → SessionManager × Option Session
unfolding drop_session
close_session m handle = elim (lookup handle m.sessions) [
  | none ↦ (m, none)
  | some s ↦ (drop_session m handle s, some (close s))
]

-- The handles of the sessions that pass a test.
unfoldable pub handles_where : (Session → Bool) → List (Text × Session) → List Text
handles_where p [] = []
handles_where p ((k, s) ∷ m) = if p s then k ∷ handles_where p m else handles_where p m

abbrev pub with_closed : Option Session → List Session → List Session
with_closed none closed_sessions = closed_sessions
with_closed (some s) closed_sessions = s ∷ closed_sessions

-- The loop over the handles that counts each session off.
unfoldable pub close_all : SessionManager → List Text → SessionManager × List Session
close_all m [] = (m, [])
close_all m (handle ∷ handles) =
    let (m', gone) = close_session m handle in
    let (m'', closed_sessions) = close_all m' handles in (m'', with_closed gone closed_sessions)

-- The loop over the handles that only removes the sessions.
unfoldable pub remove_all : List (Text × Session) → List Text → List (Text × Session) × List Session
remove_all sessions [] = (sessions, [])
remove_all sessions (handle ∷ handles) = elim (lookup handle sessions) [
  | none ↦ remove_all sessions handles
  | some s ↦
      let (rest, closed_sessions) = remove_all (remove handle sessions) handles in
      (rest, close s ∷ closed_sessions)
]

abbrev pub has_app : Text → Session → Bool
has_app app s = text_eq s.app_id app

abbrev pub has_sender : Text → Session → Bool
has_sender sender s = text_eq s.sender sender

unfoldable pub close_app_sessions : SessionManager → Text → SessionManager × List Session
unfolding handles_where remove_all
close_app_sessions m app =
    let (sessions, closed_sessions) =
      remove_all m.sessions (handles_where (has_app app) m.sessions) in
    (
      record m { sessions = sessions; app_session_count = put_count m.app_session_count app none },
      closed_sessions,
    )

unfoldable pub close_sender_sessions : SessionManager → Text → SessionManager × List Session
unfolding handles_where close_all
close_sender_sessions m sender = close_all m (handles_where (has_sender sender) m.sessions)

-- `duration_since`, and no time where the clock has gone back.
abbrev pub since : ℕ → ℕ → ℕ
since now at = now - at

unfoldable pub is_stale : ℕ → ℕ → Session → Bool
is_stale max_idle now s = elim s.state [
  | init ↦ ltb max_idle (since now s.created_at)
  | started ↦ ltb (max_idle * 2) (since now s.last_activity)
  | closed ↦ true
]

unfoldable pub cleanup_stale_sessions : SessionManager → ℕ → ℕ → SessionManager × List Session
unfolding handles_where is_stale close_all
cleanup_stale_sessions m max_idle now =
    close_all m (handles_where (is_stale max_idle now) m.sessions)

unfoldable pub session_count : SessionManager → ℕ
session_count m = length m.sessions

unfoldable pub app_sessions : SessionManager → Text → ℕ
app_sessions m app = or_zero (m.app_session_count app)

unfoldable pub clipboard_session_handles : List (Text × Session) → List Text
clipboard_session_handles [] = []
clipboard_session_handles ((k, s) ∷ m) =
    if s.clipboard_enabled && not (is_closed s.state)
    then s.id ∷ clipboard_session_handles m
    else clipboard_session_handles m
