-- ===== src/Sesman/Cleanup/Reconcile.antt =====
-- What a restart of the daemon makes of the registry.
use cheirizo.Prelude.{
  ℕ, ◌+◌, ◌≤◌, Bool, true, false, none, some, ◌≡◌, refl, ◌∙◌, arith, ◌⊎◌, inl, inr, Bool-cases,
  Option-cases, ltb, ◌==◌,
}
use cheirizo.Sesman.State.{SesmanConfig, SessionState}
use cheirizo.Sesman.Registry.{idle_deadline_after, date_max}
use cheirizo.Sesman.Registry.Dates.{idle_deadline_after-dated}
use cheirizo.Sesman.Cleanup.{left_time, reconciled, reset_clients, set_left, set_deadline}

-- What a registry says once a restart of the daemon was reconciled: no client, when the last one
-- left, and, unless sessions are kept for ever, a deadline.
pub record IsReconciled (config : SesmanConfig) (s : SessionState) : Type 0 where
  pub no_client : s.active_clients ≡ 0
  pub left_at : (at : ℕ) × (s.last_disconnected_at ≡ some at)
  pub bounded : (config.idle_timeout_ms ≡ 0) ⊎ ((d : ℕ) × (s.idle_deadline_at ≡ some d))

reset_clients-same : (s : SessionState) → s.active_clients ≡ 0 → reset_clients s ≡ (s, false)
unfolding reset_clients
reset_clients-same s empty =
    let unused : ltb 0 s.active_clients ≡ false = ground arith in rw unused refl

set_left-same :
    (now : ℕ) (s : SessionState) (c : Bool) (at : ℕ)
    → s.last_disconnected_at ≡ some at
    → set_left now (s, c) ≡ (s, c)
unfolding set_left
set_left-same now s c at left = ground arith

set_deadline-same :
    (config : SesmanConfig) (now : ℕ) (s : SessionState) (c : Bool)
    → (config.idle_timeout_ms ≡ 0) ⊎ ((d : ℕ) × (s.idle_deadline_at ≡ some d))
    → set_deadline config now (s, c) ≡ some (s, c)
unfolding set_deadline
set_deadline-same config now s c (inl never) = ground arith
set_deadline-same config now s c (inr (d, set)) = ground arith

set_deadline-set :
    (config : SesmanConfig) (now : ℕ) (s : SessionState) (c : Bool) (at : ℕ)
    → s.active_clients ≡ 0
    → s.last_disconnected_at ≡ some at
    → s.idle_deadline_at ≡ none
    → (config.idle_timeout_ms == 0) ≡ false
    → at + config.idle_timeout_ms ≤ date_max
    → set_deadline config now (s, c)
      ≡ some (record s { idle_deadline_at = some (at + config.idle_timeout_ms) }, true)
unfolding set_deadline
set_deadline-set config now s c at none_left left endless bounded dated =
    let e : idle_deadline_after config (left_time now s)
        ≡ some (some (at + config.idle_timeout_ms)) =
      rw left (idle_deadline_after-dated config at bounded dated) in
    let unused : (s.active_clients == 0) ≡ true = ground arith in
    rw (unused, endless, bounded, e) refl

reset_clients_lem :
    (s : SessionState)
    → ((reset_clients s).0.active_clients ≡ 0)
      × ((reset_clients s).1 ≡ false → (reset_clients s).0 ≡ s)
unfolding reset_clients
reset_clients_lem s = elim (Bool-cases (ltb 0 s.active_clients)) [
  | inl used ↦ (rw used refl, rw used (λ h. absurd (cc h)))
  | inr unused ↦ (rw unused (ground arith), rw unused (λ h. refl))
]

reset_clients_left :
    (now : ℕ) (s : SessionState) → left_time now (reset_clients s).0 ≡ left_time now s
unfolding reset_clients
reset_clients_left now s = elim (Bool-cases (ltb 0 s.active_clients)) [
  | inl used ↦ rw used refl
  | inr unused ↦ rw unused refl
]

set_left_lem :
    (now : ℕ) (s : SessionState) (c : Bool)
    → s.active_clients ≡ 0
    → ((set_left now (s, c)).0.active_clients ≡ 0)
      × ((set_left now (s, c)).0.last_disconnected_at ≡ some (left_time now s))
      × ((set_left now (s, c)).1 ≡ false → ((set_left now (s, c)).0 ≡ s) × (c ≡ false))
unfolding set_left
set_left_lem now s c none_left = elim (Option-cases s.last_disconnected_at) [
  | inl never ↦
      let empty : (s.active_clients == 0) ≡ true = ground arith in
      (rw (empty, never) none_left, rw (empty, never) refl, rw (empty, never) (λ h. absurd (cc h)))
  | inr (at, left) ↦
      let same = set_left-same now s c at left in
      (rw same none_left, rw (same, left) refl, rw same (λ h. (refl, h)))
]

set_deadline_lem :
    (config : SesmanConfig) (now : ℕ) (s : SessionState) (c : Bool) (at : ℕ)
    → s.active_clients ≡ 0
    → s.last_disconnected_at ≡ some at
    → at + config.idle_timeout_ms ≤ date_max
    → (s' : SessionState) × (c' : Bool) × (set_deadline config now (s, c) ≡ some (s', c'))
      × IsReconciled config s'
      × ((c' ≡ true) ⊎ ((s' ≡ s) × (c ≡ c')))
set_deadline_lem config now s c at none_left left dated = elim (Option-cases s.idle_deadline_at) [
  | inr (d, set) ↦
      let same = set_deadline-same config now s c (inr (d, set)) in
      (
        s,
        c,
        same,
        record { no_client = none_left; left_at = (at, left); bounded = inr (d, set) },
        inr (refl, refl),
      )
  | inl endless ↦ elim (Bool-cases (config.idle_timeout_ms == 0)) [
    | inl never ↦
        let forever : config.idle_timeout_ms ≡ 0 = ground arith in
        let same = set_deadline-same config now s c (inl forever) in
        (
          s,
          c,
          same,
          record { no_client = none_left; left_at = (at, left); bounded = inl forever },
          inr (refl, refl),
        )
    | inr bounded ↦
        let e = set_deadline-set config now s c at none_left left endless bounded dated in
        (
          record s { idle_deadline_at = some (at + config.idle_timeout_ms) },
          true,
          e,
          record {
            no_client = none_left;
            left_at = (at, left);
            bounded = inr (at + config.idle_timeout_ms, refl);
          },
          inl refl,
        )
  ]
]

reconciled-same :
    (config : SesmanConfig) (now : ℕ) (s : SessionState)
    → IsReconciled config s
    → reconciled config now s ≡ some (s, false)
unfolding reconciled
reconciled-same config now s r =
    let empty : ltb 0 s.active_clients ≡ false = ground (arith, r.no_client) in
    let (at, left) = r.left_at in
    rw (reset_clients-same s r.no_client, set_left-same now s false at left)
      (set_deadline-same config now s false r.bounded)

-- Whatever state a daemon that crashed has left, if the idle timeout from the time on record when
-- the last client left, or from now if there is none, ends at a date that `chrono` has, the
-- reconciliation ends with no client, a time when the last one left and a deadline, unless sessions
-- are kept for ever; it says that it changed the state or leaves it as it was; and a second
-- reconciliation, at any time, changes nothing.
pub reconciled-IsReconciled :
    (config : SesmanConfig) (now later : ℕ) (s : SessionState)
    → left_time now s + config.idle_timeout_ms ≤ date_max
    → (s' : SessionState) × (changed : Bool) × (reconciled config now s ≡ some (s', changed))
      × IsReconciled config s'
      × ((changed ≡ true) ⊎ (s' ≡ s))
      × (reconciled config later s' ≡ some (s', false))
unfolding reconciled
reconciled-IsReconciled config now later s dated =
    let (empty, same1) = reset_clients_lem s in
    let r1 = reset_clients s in
    let (empty2, left, same2) = set_left_lem now r1.0 r1.1 empty in
    let r2 = set_left now r1 in
    let dated1 : left_time now r1.0 + config.idle_timeout_ms ≤ date_max =
      rw (reset_clients_left now s) dated in
    let (s', changed, e, done, told) = set_deadline_lem config now r2.0 r2.1 _ empty2 left dated1 in
    (
      s',
      changed,
      e,
      done,
      elim told [
        | inl said ↦ inl said
        | inr (e3, c2) ↦ elim (Bool-cases changed) [
          | inl said ↦ inl said
          | inr unchanged ↦ let (e2, c1) = same2 (c2 ∙ unchanged) in inr (e3 ∙ (e2 ∙ same1 c1))
        ]
      ],
      reconciled-same config later s' done,
    )
