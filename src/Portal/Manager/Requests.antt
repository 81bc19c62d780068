-- ===== src/Portal/Manager/Requests.antt =====
-- The requests that the portal's manager serves, in any order.
use cheirizo.Prelude.{
  ℕ, ◌+◌, ◌≤◌, ◌<◌, Bool, false, none, some, List, [], ◌∷◌, ◌≡◌, ◌≢◌, ◌∙◌, refl, arith, ap, ◌⊎◌,
  ◌↔◌, Text, text_eq, text_eq_sound, text_eq_self, leb, Bool-cases, Option-cases, inl, inr,
}
use cheirizo.Prelude.Maps.{lookup, count, Distinct}
use cheirizo.Portal.Types.{init, ok, err, session_limit_exceeded, invalid_session}
use cheirizo.Portal.Session.{Session, PersistMode, new_session}
use cheirizo.Portal.Session.Lifecycle.{Call, call, call-app_id}
use cheirizo.Portal.Manager.{
  SessionManager, with_config, or_zero, create_session, update_session, close_session,
  close_app_sessions, close_sender_sessions, cleanup_stale_sessions, validate_session, persisting,
  close_all, has_app, has_sender, is_stale, handles_where, enforce_session_limit, insert_session,
}
use cheirizo.Portal.Manager.Counted.{
  IsCounted, with_config-IsCounted, create_session-IsCounted, close_session-IsCounted,
  close_all-IsCounted, update_session-IsCounted,
}
use cheirizo.Portal.Manager.Closing.{
  kept, chosen, remove_all-exact, close_all-remove_all, close_app_sessions-IsCounted,
}

pub data Request : Type 0 where
  creates : Text → Text → Text → PersistMode → ℕ → Request
  updates : Text → Call → Request
  closes closes_app closes_sender : Text → Request
  cleans : ℕ → ℕ → Request

unfoldable pub serve : SessionManager → Request → SessionManager
serve m (creates handle sender app mode now) = (create_session m handle sender app mode now).0
serve m (updates handle c) = update_session m handle (λ s. (call s c).0)
serve m (closes handle) = (close_session m handle).0
serve m (closes_app app) = (close_app_sessions m app).0
serve m (closes_sender sender) = (close_sender_sessions m sender).0
serve m (cleans max_idle now) = (cleanup_stale_sessions m max_idle now).0

unfoldable pub serve_all : SessionManager → List Request → SessionManager
serve_all m [] = m
serve_all m (r ∷ rs) = serve_all (serve m r) rs

serve-IsCounted : (m : SessionManager) (r : Request) → IsCounted m → IsCounted (serve m r)
unfolding serve close_sender_sessions cleanup_stale_sessions
serve-IsCounted m (creates handle sender app mode now) v =
    create_session-IsCounted m v handle sender app mode now
serve-IsCounted m (updates handle c) v =
    update_session-IsCounted (λ s. (call s c).0) (λ s. call-app_id s c) m handle v
serve-IsCounted m (closes handle) v = close_session-IsCounted m v handle
serve-IsCounted m (closes_app app) v = close_app_sessions-IsCounted m app v
serve-IsCounted m (closes_sender sender) v =
    close_all-IsCounted m (handles_where (has_sender sender) m.sessions) v
serve-IsCounted m (cleans max_idle now) v =
    close_all-IsCounted m (handles_where (is_stale max_idle now) m.sessions) v

keeps_IsCounted :
    (m : SessionManager) (rs : List Request) → IsCounted m → IsCounted (serve_all m rs)
unfolding serve_all
keeps_IsCounted m [] v = v
keeps_IsCounted m (r ∷ rs) v = keeps_IsCounted (serve m r) rs (serve-IsCounted m r v)

-- Whatever requests the manager serves, the count on record of each application is the number of
-- its sessions and never an entry of 0, no application has more sessions than the limit, and no two
-- sessions share a handle.
pub serve_all-IsCounted :
    (max_sessions : ℕ) (rs : List Request) → IsCounted (serve_all (with_config max_sessions) rs)
serve_all-IsCounted max_sessions rs = keeps_IsCounted _ rs (with_config-IsCounted max_sessions)

-- The sessions that pass the test are closed and handed out, and all others stay as they were.
abbrev pub ClosesExactly :
    (Session → Bool) → SessionManager → SessionManager × List Session → Type 0
ClosesExactly p m r = (r.0.sessions ≡ kept p m.sessions) × (r.1 ≡ chosen p m.sessions)

close_all-ClosesExactly :
    (p : Session → Bool) (m : SessionManager)
    → Distinct m.sessions
    → ClosesExactly p m (close_all m (handles_where p m.sessions))
close_all-ClosesExactly p m d =
    let e = close_all-remove_all m (handles_where p m.sessions) ∙ remove_all-exact p m.sessions d in
    (
      ap (λ (r : List (Text × Session) × List Session). r.0) e,
      ap (λ (r : List (Text × Session) × List Session). r.1) e,
    )

-- Of a manager whose counts are right, the three calls that close several sessions close exactly those of
-- the application, those of the sender and the stale ones, hand them out closed, and keep all others as
-- they were.
pub closing_exact :
    (m : SessionManager) (app sender : Text) (max_idle now : ℕ)
    → IsCounted m
    → ClosesExactly (has_app app) m (close_app_sessions m app)
      × ClosesExactly (has_sender sender) m (close_sender_sessions m sender)
      × ClosesExactly (is_stale max_idle now) m (cleanup_stale_sessions m max_idle now)
unfolding close_app_sessions close_sender_sessions cleanup_stale_sessions
closing_exact m app sender max_idle now v =
    let e = remove_all-exact (has_app app) m.sessions v.distinct in
    (
      (
        ap (λ (r : List (Text × Session) × List Session). r.0) e,
        ap (λ (r : List (Text × Session) × List Session). r.1) e,
      ),
      close_all-ClosesExactly (has_sender sender) m v.distinct,
      close_all-ClosesExactly (is_stale max_idle now) m v.distinct,
    )

-- What a created session is: found under its handle, of its application and sender, not started.
pub record IsCreated (m m' : SessionManager) (handle sender app : Text) (mode : PersistMode)
    (s : Session) : Type 0 where
  pub found : lookup handle m'.sessions ≡ some s
  pub others :
      (other : Text)
      → text_eq handle other ≡ false
      → lookup other m'.sessions ≡ lookup other m.sessions
  pub one_more : count (has_app app) m'.sessions ≡ count (has_app app) m.sessions + 1
  pub owned : validate_session m' handle app sender ≡ ok tt
  pub first_state : s.state ≡ init
  pub mode_kept : s.persist_mode ≡ mode

created :
    (m : SessionManager) (handle sender app : Text) (mode : PersistMode) (now : ℕ)
    → let s = persisting (new_session handle sender app now) mode in
      IsCreated m (insert_session m handle s) handle sender app mode s
unfolding insert_session new_session lookup count validate_session
created m handle sender app mode now = record {
  found = ground (arith, text_eq_self handle);
  others = λ other apart. rw apart refl;
  one_more = ground (arith, text_eq_self app);
  owned = ground (arith, text_eq_self handle, text_eq_self app, text_eq_self sender);
  first_state = refl;
  mode_kept = refl;
}

-- Of a manager whose counts are right, a new session is refused and nothing changes when its application
-- has as many sessions as the limit allows or, below the limit, when its handle is in use; otherwise it
-- is created: found, owned by its application and sender, in the first state, and no other session
-- changes.
pub create_session_cases :
    (m : SessionManager) (handle sender app : Text) (mode : PersistMode) (now : ℕ)
    → IsCounted m
    → ((m.max_sessions_per_app ≤ count (has_app app) m.sessions)
        × (create_session m handle sender app mode now
            ≡ (m, err (session_limit_exceeded app m.max_sessions_per_app))))
      ⊎ ((count (has_app app) m.sessions < m.max_sessions_per_app)
          × (lookup handle m.sessions ≢ none)
          × (create_session m handle sender app mode now ≡ (m, err (invalid_session handle))))
      ⊎ ((count (has_app app) m.sessions < m.max_sessions_per_app)
          × (lookup handle m.sessions ≡ none)
          × ((s : Session) × ((create_session m handle sender app mode now).1 ≡ ok s)
              × IsCreated m
                  (create_session m handle sender app mode now).0
                  handle
                  sender
                  app
                  mode
                  s))
unfolding create_session
create_session_cases m handle sender app mode now v =
    elim (Bool-cases (leb m.max_sessions_per_app (or_zero (m.app_session_count app)))) [
      | inl full ↦
          inl (ground (arith, v.counts app), rw (full, create_session, enforce_session_limit) refl)
      | inr room ↦
          let below : count (has_app app) m.sessions < m.max_sessions_per_app =
            ground (arith, v.counts app) in
          elim (Option-cases (lookup handle m.sessions)) [
            | inr (old, there) ↦ inr (
                inl (
                  below,
                  rw there (cc),
                  rw (room, there, create_session, enforce_session_limit) refl,
                ))
            | inl fresh ↦ inr (
                inr (
                  below,
                  fresh,
                  let s = persisting (new_session handle sender app now) mode in
                      (
                        s,
                        rw (room, fresh, create_session, enforce_session_limit) refl,
                        rw (room, fresh, create_session, enforce_session_limit)
                            (created m handle sender app mode now),
                      ),
                ))
          ]
    ]

-- A caller passes exactly if the session is there and belongs to its application and its sender.
pub validate_session_iff :
    (m : SessionManager) (handle app sender : Text)
    → (validate_session m handle app sender ≡ ok tt) ↔ (
        (s : Session) × (lookup handle m.sessions ≡ some s)
        × (s.app_id ≡ app)
        × (s.sender ≡ sender))
unfolding validate_session
validate_session_iff m handle app sender = (
  λ passed. elim (Option-cases (lookup handle m.sessions)) [
    | inl absent ↦ absurd (ground arith)
    | inr (s, there) ↦ (
      s,
      there,
      ground (arith, text_eq_sound s.app_id app),
      ground (arith, text_eq_sound s.sender sender),
    )
  ],
  λ h.
      let (s, there, of_app, of_sender) = h in
      ground (arith, there, of_app, of_sender, text_eq_self app, text_eq_self sender),
)
