-- ===== src/Portal/Manager/Closing.antt =====
-- Which sessions the calls that close several of them close.
use cheirizo.Prelude.{
  ◌≤◌, Bool, false, none, List, [], ◌∷◌, ◌≡◌, ◌∙◌, refl, arith, All, Text, text_eq, text_eq_sound,
  text_eq_self, text_eq_comm, if◌then◌else◌, Bool-cases, Option-cases, inl, inr,
}
use cheirizo.Prelude.Maps.{lookup, remove, count, Distinct}
use cheirizo.Portal.Session.{Session, close}
use cheirizo.Portal.Manager.{
  SessionManager, close_session, drop_session, close_all, remove_all, handles_where, has_app,
  close_app_sessions,
}
use cheirizo.Portal.Manager.Counted.{IsCounted}

-- The entries that fail a test, in their order.
abbrev pub kept : (Session → Bool) → List (Text × Session) → List (Text × Session)
kept p [] = []
kept p ((k, s) ∷ m) = if p s then kept p m else (k, s) ∷ kept p m

-- The sessions that pass a test, closed.
abbrev pub chosen : (Session → Bool) → List (Text × Session) → List Session
chosen p [] = []
chosen p ((k, s) ∷ m) = if p s then close s ∷ chosen p m else chosen p m

module _ (p : Session → Bool) where
  handles_where-others :
      (k : Text) (m : List (Text × Session))
      → lookup k m ≡ none
      → All (λ h. text_eq k h ≡ false) (handles_where p m)
  unfolding lookup handles_where
  handles_where-others k [] h = tt
  handles_where-others k ((j, s) ∷ m) h =
      let apart : text_eq j k ≡ false = ground arith in
      let rest : lookup k m ≡ none = ground arith in
      elim (Bool-cases (p s)) [
        | inl picked ↦ rw picked (text_eq_comm k j ∙ apart, handles_where-others k m rest)
        | inr left ↦ rw left (handles_where-others k m rest)
      ]

  remove_all-others :
      (k : Text) (s : Session) (m : List (Text × Session)) (hs : List Text)
      → All (λ h. text_eq k h ≡ false) hs
      → remove_all ((k, s) ∷ m) hs ≡ ((k, s) ∷ (remove_all m hs).0, (remove_all m hs).1)
  unfolding remove_all lookup remove
  remove_all-others k s m [] a = refl
  remove_all-others k s m (h ∷ hs) a =
      ground (arith, remove_all-others k s m hs, remove_all-others k s (remove h m) hs)

  lookup-kept :
      (k : Text) (m : List (Text × Session)) → lookup k m ≡ none → lookup k (kept p m) ≡ none
  unfolding lookup
  lookup-kept k [] h = refl
  lookup-kept k ((j, s) ∷ m) h = ground (arith, lookup-kept k m)

  -- Removing the sessions that pass a test keeps the others as they are.
  pub remove_all-exact :
      (m : List (Text × Session))
      → Distinct m
      → remove_all m (handles_where p m) ≡ (kept p m, chosen p m)
  unfolding remove_all handles_where lookup remove
  remove_all-exact [] d = refl
  remove_all-exact ((k, s) ∷ m) d = ground (
    arith,
    text_eq_self k,
    remove_all-exact m d.1,
    remove_all-others k s m (handles_where p m) (handles_where-others k m d.0),
  )

  pub Distinct-kept : (m : List (Text × Session)) → Distinct m → Distinct (kept p m)
  Distinct-kept [] d = tt
  Distinct-kept ((k, s) ∷ m) d = elim (Bool-cases (p s)) [
    | inl gone ↦ rw gone (Distinct-kept m d.1)
    | inr stays ↦ rw stays (lookup-kept k m d.0, Distinct-kept m d.1)
  ]

  count-kept-le : (q : Session → Bool) (m : List (Text × Session)) → count q (kept p m) ≤ count q m
  unfolding count
  count-kept-le q [] = omega arith
  count-kept-le q ((k, s) ∷ m) = ground (arith, count-kept-le q m)

-- The loop that counts sessions off removes the same ones.
pub close_all-remove_all :
    (m : SessionManager) (hs : List Text)
    → ((close_all m hs).0.sessions, (close_all m hs).1) ≡ remove_all m.sessions hs
unfolding close_all remove_all close_session drop_session
close_all-remove_all m [] = refl
close_all-remove_all m (h ∷ hs) = elim (Option-cases (lookup h m.sessions)) [
  | inl absent ↦ ground (arith, close_all-remove_all m hs)
  | inr (s, there) ↦ ground (arith, close_all-remove_all (drop_session m h s) hs)
]

count-kept_app :
    (app a : Text) (m : List (Text × Session))
    → count (has_app a) (kept (has_app app) m) ≡ (if text_eq app a then 0 else count (has_app a) m)
unfolding count
count-kept_app app a [] = ground arith
count-kept_app app a ((k, s) ∷ m) = ground (
  arith,
  count-kept_app app a m,
  text_eq_sound s.app_id app,
  text_eq_sound s.app_id a,
  text_eq_sound app a,
  text_eq_self a,
)

pub close_app_sessions-IsCounted :
    (m : SessionManager) (app : Text) → IsCounted m → IsCounted (close_app_sessions m app).0
unfolding close_app_sessions
close_app_sessions-IsCounted m app v =
    let exact = remove_all-exact (has_app app) m.sessions v.distinct in
    rw exact (record {
      counts = λ a. ground (arith, v.counts a, count-kept_app app a m.sessions);
      no_zero = λ a. ground (arith, v.no_zero a);
      within = λ a.
          let fewer = count-kept-le (has_app app) (has_app a) m.sessions in
          omega (arith, v.within a);
      distinct = Distinct-kept (has_app app) m.sessions v.distinct;
    })
