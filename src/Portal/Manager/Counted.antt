-- ===== src/Portal/Manager/Counted.antt =====
-- The counts that limit the sessions of an application, and the calls that keep them.
use cheirizo.Prelude.{
  ℕ, ◌≤◌, ◌<◌, none, some, List, [], ◌∷◌, ◌≡◌, ◌≢◌, refl, arith, Text, text_eq, text_eq_sound,
  Bool-cases, Option-cases, inl, inr, leb,
}
use cheirizo.Prelude.Maps.{lookup, count, Distinct, count-remove, Distinct-remove}
use cheirizo.Portal.Session.{Session, PersistMode, new_session}
use cheirizo.Portal.Manager.{
  SessionManager, with_config, or_zero, insert_session, create_session, persisting, write_session,
  update_session, drop_session, close_session, close_all, has_app,
}

pub record IsCounted (m : SessionManager) : Type 0 where
  pub counts : (app : Text) → or_zero (m.app_session_count app) ≡ count (has_app app) m.sessions
  pub no_zero : (app : Text) → m.app_session_count app ≢ some 0
  pub within : (app : Text) → count (has_app app) m.sessions ≤ m.max_sessions_per_app
  pub distinct : Distinct m.sessions

pub with_config-IsCounted : (max : ℕ) → IsCounted (with_config max)
unfolding with_config count
with_config-IsCounted max = record {
  counts = λ app. refl;
  no_zero = λ app e. cc;
  within = λ app. omega arith;
  distinct = tt;
}

module _ (m : SessionManager) (v : IsCounted m) where
  insert_session-IsCounted :
      (handle : Text) (s : Session)
      → lookup handle m.sessions ≡ none
      → or_zero (m.app_session_count s.app_id) < m.max_sessions_per_app
      → IsCounted (insert_session m handle s)
  unfolding insert_session count
  insert_session-IsCounted handle s fresh room = record {
    counts = λ app. ground (arith, text_eq_sound s.app_id app, v.counts s.app_id, v.counts app);
    no_zero = λ app. ground (arith, v.no_zero app);
    within = λ app.
        ground (arith, text_eq_sound s.app_id app, v.counts s.app_id, v.counts app, v.within app);
    distinct = (fresh, v.distinct);
  }

  pub create_session-IsCounted :
      (handle sender app : Text) (mode : PersistMode) (now : ℕ)
      → IsCounted (create_session m handle sender app mode now).0
  unfolding create_session
  create_session-IsCounted handle sender app mode now =
      elim (Bool-cases (leb m.max_sessions_per_app (or_zero (m.app_session_count app)))) [
        | inl full ↦ rw (full, create_session) v
        | inr room ↦ elim (Option-cases (lookup handle m.sessions)) [
          | inr (old, there) ↦ rw (room, there, create_session) v
          | inl fresh ↦
              rw (room, fresh, create_session)
                (insert_session-IsCounted handle
                  (persisting (new_session handle sender app now) mode) fresh
                  (unfold new_session in ground arith))
        ]
      ]

  drop_session-IsCounted :
      (handle : Text) (s : Session)
      → lookup handle m.sessions ≡ some s
      → IsCounted (drop_session m handle s)
  unfolding drop_session
  drop_session-IsCounted handle s there = record {
    counts = λ app. ground (
      arith,
      text_eq_sound s.app_id app,
      v.counts s.app_id,
      v.counts app,
      count-remove (has_app app) handle m.sessions s,
    );
    no_zero = λ app. ground (arith, v.no_zero app);
    within = λ app. ground (arith, v.within app, count-remove (has_app app) handle m.sessions s);
    distinct = Distinct-remove handle m.sessions v.distinct;
  }

  pub close_session-IsCounted : (handle : Text) → IsCounted (close_session m handle).0
  unfolding close_session
  close_session-IsCounted handle = elim (Option-cases (lookup handle m.sessions)) [
    | inl absent ↦ rw (absent, close_session) v
    | inr (s, there) ↦ rw (there, close_session) (drop_session-IsCounted handle s there)
  ]

pub close_all-IsCounted :
    (m : SessionManager) (handles : List Text) → IsCounted m → IsCounted (close_all m handles).0
unfolding close_all
close_all-IsCounted m [] v = v
close_all-IsCounted m (handle ∷ handles) v =
    close_all-IsCounted (close_session m handle).0 handles (close_session-IsCounted m v handle)

-- A write to a session that keeps its application and its place.
module _ (f : Session → Session) (keeps : (s : Session) → (f s).app_id ≡ s.app_id) where
  lookup-write_none :
      (j k : Text) (m : List (Text × Session))
      → lookup j m ≡ none
      → lookup j (write_session f k m) ≡ none
  unfolding lookup write_session
  lookup-write_none j k [] h = refl
  lookup-write_none j k ((i, s) ∷ m) h = ground (arith, lookup-write_none j k m)

  Distinct-write :
      (k : Text) (m : List (Text × Session)) → Distinct m → Distinct (write_session f k m)
  unfolding write_session
  Distinct-write k [] d = tt
  Distinct-write k ((j, s) ∷ m) d = elim (Bool-cases (text_eq j k)) [
    | inl same ↦ rw same d
    | inr other ↦ rw other (lookup-write_none j k m d.0, Distinct-write k m d.1)
  ]

  count-write :
      (app k : Text) (m : List (Text × Session))
      → count (has_app app) (write_session f k m) ≡ count (has_app app) m
  unfolding count write_session
  count-write app k [] = refl
  count-write app k ((j, s) ∷ m) = ground (arith, keeps s, count-write app k m)

  pub update_session-IsCounted :
      (m : SessionManager) (handle : Text) → IsCounted m → IsCounted (update_session m handle f)
  unfolding update_session
  update_session-IsCounted m handle v = record {
    counts = λ app. rw count-write (v.counts app);
    no_zero = v.no_zero;
    within = λ app. rw count-write (v.within app);
    distinct = Distinct-write handle m.sessions v.distinct;
  }
