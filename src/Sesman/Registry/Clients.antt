-- ===== src/Sesman/Registry/Clients.antt =====
-- What the calls for clients that come and go make of the registry.
use cheirizo.Prelude.{
  ℕ, ◌+◌, ◌-◌, ◌≤◌, ◌<◌, Bool, true, false, Option, none, some, ◌≡◌, refl, sym, ◌∙◌, arith, ◌⊎◌,
  inl, inr, Bool-cases, Option-cases, ◌==◌,
}
use cheirizo.Prelude.Words.{u32_max}
use cheirizo.Sesman.State.{SesmanConfig, SessionState, SessionStatus, EnsureOptions}
use cheirizo.Sesman.Health.{Host, session_status, status_can_serve}
use cheirizo.Sesman.Teardown.{Disk, Result, ok, err}
use cheirizo.Sesman.Registry.{
  Outcome, save, bind_status, bind_single_client, bound, disconnected, update_reconnect_state,
  idle_deadline_after, set_requested_size, set_last_client, attach_client,
}
use cheirizo.Sesman.Registry.Reads.{read_status-cases, session_status-state}

abbrev pub is_error {ℓ} : {A : Type ℓ} → Result A → Bool
is_error (ok a) = false
is_error (err e) = true

-- A call was refused, and has left the registry as it was.
abbrev pub IsRefused {ℓ} : {A : Type ℓ} → Option SessionState → Outcome A → Type 0
IsRefused registry r = (r.0 ≡ registry) × (is_error r.1 ≡ true)

-- What is on record of a session once the single client is bound to it.
pub record IsBound (s : SessionState) (registry : Option SessionState) : Type 0 where
  pub bound_state : SessionState
  pub on_record : registry ≡ some bound_state
  pub one_client : bound_state.active_clients ≡ 1
  pub not_left : bound_state.last_disconnected_at ≡ none
  pub no_deadline : bound_state.idle_deadline_at ≡ none
  pub same_components : bound_state.components ≡ s.components
  pub same_id : bound_state.id ≡ s.id

module _ (h h' : Host) (disk : Disk) (config : SesmanConfig) (registry : Option SessionState) where
  save_cases :
      (s : SessionState)
      → IsRefused registry (save h h' disk config registry s)
        ⊎ ((save h h' disk config registry s).0 ≡ some s)
  unfolding save
  save_cases s = elim (Bool-cases disk.write_ok) [
    | inl written ↦ inr (rw written refl)
    | inr failed ↦ inl (rw failed refl, rw failed refl)
  ]

  saved-IsBound :
      (s : SessionState) (registry' : Option SessionState)
      → registry' ≡ some (bound h.now s)
      → IsBound s registry'
  unfolding bound
  saved-IsBound s registry' e = record {
    bound_state = bound h.now s;
    on_record = e;
    one_client = refl;
    not_left = refl;
    no_deadline = refl;
    same_components = refl;
    same_id = refl;
  }

  -- What a bind comes to, of the status that it read.
  abbrev Bound : SessionStatus → Outcome SessionStatus → Type 0
  Bound st r =
      IsRefused registry r
      ⊎ ((s : SessionState) × (registry ≡ some s)
          × (status_can_serve config st ≡ true)
          × IsBound s r.0)

  bind_status_cases :
      (st : SessionStatus)
      → st.state ≡ registry
      → Bound st (bind_status h h' disk config registry st)
  unfolding bind_status
  bind_status_cases st e = elim (Bool-cases (status_can_serve config st)) [
    | inr useless ↦ inl (rw (bind_status, useless) (refl, refl))
    | inl serves ↦ elim (Option-cases st.state) [
      | inl absent ↦ inl (rw (bind_status, serves, absent) (refl, refl))
      | inr (s, there) ↦ elim (save_cases (bound h.now s)) [
        | inl refused ↦ inl (rw (bind_status, serves, there) refused)
        | inr saved ↦ inr (
          s,
          sym e ∙ there,
          serves,
          saved-IsBound s (bind_status h h' disk config registry st).0
              (rw (bind_status, serves, there) saved),
        )
      ]
    ]
  ]

  -- Binding a client is refused and changes nothing, or the session was there and could serve, and
  -- is then on record with exactly one client, no time of disconnection and no idle deadline,
  -- whatever count was left before.
  pub bind_single_client_cases :
      IsRefused registry (bind_single_client h h' disk config registry)
      ⊎ ((s : SessionState) × (registry ≡ some s)
          × (status_can_serve config (session_status h config registry) ≡ true)
          × IsBound s (bind_single_client h h' disk config registry).0)
  unfolding bind_single_client
  bind_single_client_cases = elim (Bool-cases disk.lock_ok) [
    | inr locked ↦ inl (simp (bind_single_client, locked) (refl, refl))
    | inl open_lock ↦ elim (read_status-cases h disk config registry) [
      | inl unread ↦ inl (simp (bind_single_client, open_lock, unread) (refl, refl))
      | inr read ↦
          simp (bind_single_client, open_lock, read)
            (bind_status_cases (session_status h config registry)
              (session_status-state h config registry))
    ]
  ]

-- What attaching a client makes of the fields that count clients.
same_clients :
    (options : EnsureOptions) (s : SessionState) (now : ℕ)
    → (set_last_client now options (set_requested_size options s)).active_clients ≡ s.active_clients
unfolding set_last_client set_requested_size
same_clients options s now = elim (Option-cases options.requested_size) [
  | inl e ↦ elim (Option-cases options.client_peer) [
    | inl f ↦ rw (e, f) refl
    | inr (peer, f) ↦ rw (e, f) refl
  ]
  | inr (size, e) ↦ elim (Option-cases options.client_peer) [
    | inl f ↦ rw (e, f) refl
    | inr (peer, f) ↦ rw (e, f) refl
  ]
]

attached_lem :
    (options : EnsureOptions) (s : SessionState) (now : ℕ)
    → options.client_connected ≡ true
    → s.active_clients < u32_max
    → let s' = update_reconnect_state now options s in
      (s'.active_clients ≡ s.active_clients + 1)
      × (s'.last_disconnected_at ≡ none)
      × (s'.idle_deadline_at ≡ none)
unfolding update_reconnect_state
attached_lem options s now connected room =
    let s' = set_last_client now options (set_requested_size options s) in
    let same : s'.active_clients ≡ s.active_clients = same_clients options s now in
    let fits : s'.active_clients + 1 ≤ u32_max = omega arith in
    unfold attach_client in rw connected (omega arith, refl, refl)

-- A client that attaches and leaves again, at times whose idle deadline is a date, leaves the count
-- of clients as it was; it sets the time of disconnection and the idle deadline if it was the only
-- one, and leaves none where others are still connected.
pub disconnected-update_reconnect_state :
    (config : SesmanConfig) (options : EnsureOptions) (s : SessionState) (now later : ℕ)
    (due : Option ℕ)
    → options.client_connected ≡ true
    → s.active_clients < u32_max
    → idle_deadline_after config later ≡ some due
    → (s' : SessionState) × (disconnected config later (update_reconnect_state now options s)
        ≡ some s')
      × (s'.active_clients ≡ s.active_clients)
      × (((s.active_clients ≡ 0)
            × (s'.last_disconnected_at ≡ some later)
            × (s'.idle_deadline_at ≡ due))
          ⊎ ((0 < s.active_clients)
              × (s'.last_disconnected_at ≡ none)
              × (s'.idle_deadline_at ≡ none)))
unfolding disconnected
disconnected-update_reconnect_state config options s now later due connected room dated =
    let s' = update_reconnect_state now options s in
    let (count, left, deadline) = attached_lem options s now connected room in
    elim (Bool-cases (s'.active_clients - 1 == 0)) [
      | inl last ↦ (
        record s' {
          active_clients = s'.active_clients - 1;
          last_disconnected_at = some later;
          idle_deadline_at = due;
          updated_at = later;
        },
        rw (last, dated) refl,
        omega arith,
        inl (ground arith, refl, refl),
      )
      | inr more ↦ (
        record s' { active_clients = s'.active_clients - 1; updated_at = later },
        rw more refl,
        omega arith,
        inr (ground arith, left, deadline),
      )
    ]
