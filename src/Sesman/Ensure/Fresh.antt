-- ===== src/Sesman/Ensure/Fresh.antt =====
-- The state of a new session, and the cases of a result.
use cheirizo.Prelude.{ℕ, ◌≡◌, refl, ◌⊎◌, inl, inr, Bool-cases, Option-cases}
use cheirizo.Sesman.State.{SessionState, EnsureOptions}
use cheirizo.Sesman.Teardown.{Result, ok, err, SesmanError}
use cheirizo.Sesman.Registry.{
  update_reconnect_state, set_last_client, set_requested_size, attach_client,
}

pub update_components :
    (options : EnsureOptions) (s : SessionState) (now : ℕ)
    → (update_reconnect_state now options s).components ≡ s.components
unfolding update_reconnect_state set_last_client set_requested_size attach_client
update_components options s now = elim (Bool-cases options.client_connected) [
  | inl on ↦ elim (Option-cases options.requested_size) [
    | inl e ↦ elim (Option-cases options.client_peer) [
      | inl f ↦ rw (on, e, f) refl
      | inr (peer, f) ↦ rw (on, e, f) refl
    ]
    | inr (size, e) ↦ elim (Option-cases options.client_peer) [
      | inl f ↦ rw (on, e, f) refl
      | inr (peer, f) ↦ rw (on, e, f) refl
    ]
  ]
  | inr off ↦ elim (Option-cases options.requested_size) [
    | inl e ↦ elim (Option-cases options.client_peer) [
      | inl f ↦ rw (off, e, f) refl
      | inr (peer, f) ↦ rw (off, e, f) refl
    ]
    | inr (size, e) ↦ elim (Option-cases options.client_peer) [
      | inl f ↦ rw (off, e, f) refl
      | inr (peer, f) ↦ rw (off, e, f) refl
    ]
  ]
]

pub Result-cases {ℓ} :
    {A : Type ℓ} (r : Result A) → ((e : SesmanError) × (r ≡ err e)) ⊎ ((a : A) × (r ≡ ok a))
Result-cases (err e) = inl (e, refl)
Result-cases (ok a) = inr (a, refl)
