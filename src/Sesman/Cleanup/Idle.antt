-- ===== src/Sesman/Cleanup/Idle.antt =====
-- When an idle session is stopped.
use cheirizo.Prelude.{
  ℕ, ◌+◌, ◌≤◌, ◌<◌, Option, none, some, [], ◌≡◌, ◌≢◌, refl, sym, ap, ◌==◌, subst, ◌∙◌, arith, ◌⊎◌,
  inl, inr, Bool-cases, Option-cases, ltb,
}
use cheirizo.Sesman.State.{SesmanConfig, SessionState}
use cheirizo.Sesman.Health.{Host, session_status}
use cheirizo.Sesman.Teardown.{Disk, Moments}
use cheirizo.Sesman.Registry.{effective_idle_deadline, idle_deadline_after, unbound, date_max}
use cheirizo.Sesman.Registry.Dates.{idle_deadline_after-never, idle_deadline_after-dated}
use cheirizo.Sesman.Registry.Reads.{read_status-cases, session_status-state}
use cheirizo.Sesman.Cleanup.{cleanup_state, cleanup_idle_locked, cleanup_idle, is_missing, Cleanup}

-- No client is connected, and the deadline has come.
pub record IsOverdue (config : SesmanConfig) (now : ℕ) (s : SessionState) : Type 0 where
  pub unused : s.active_clients ≡ 0
  pub passed :
      (deadline : ℕ) × (effective_idle_deadline config s ≡ some (some deadline)) × (deadline ≤ now)

-- The cleanup sent nothing and left the registry.
abbrev pub IsUntouched : Option SessionState → Cleanup → Type 0
IsUntouched registry c = (c.sent ≡ []) × (c.registry ≡ registry)

module _ (h stop_host : Host) (m : Moments) (disk : Disk) (config : SesmanConfig) where
  cleanup_state-IsOverdue :
      (registry : Option SessionState) (s : SessionState)
      → IsUntouched registry (cleanup_state h stop_host m disk config registry s)
        ⊎ IsOverdue config h.now s
  unfolding cleanup_state
  cleanup_state-IsOverdue registry s = elim (Bool-cases (ltb 0 s.active_clients)) [
    | inl used ↦ inl (rw used (refl, refl))
    | inr unused ↦ elim (Option-cases (effective_idle_deadline config s)) [
      | inl panics ↦ inl (rw (unused, panics) (refl, refl))
      | inr (due, e) ↦ elim (Option-cases due) [
        | inl endless ↦ inl (rw (unused, e, endless) (refl, refl))
        | inr (deadline, d) ↦
            let at : effective_idle_deadline config s ≡ some (some deadline) =
              e ∙ ap (λ (o : Option ℕ). some o) d in
            elim (Bool-cases (ltb h.now deadline)) [
              | inl early ↦ inl (rw (unused, at, early) (refl, refl))
              | inr late ↦
                  inr (record { unused = ground arith; passed = (deadline, at, ground arith) })
            ]
      ]
    ]
  ]

  cleanup_idle_locked-IsOverdue :
      (registry : Option SessionState)
      → IsUntouched registry (cleanup_idle_locked h stop_host m disk config registry)
        ⊎ ((s : SessionState) × (registry ≡ some s) × IsOverdue config h.now s)
  unfolding cleanup_idle_locked
  cleanup_idle_locked-IsOverdue registry = elim (read_status-cases h disk config registry) [
    | inl unread ↦ inl (rw (cleanup_idle_locked, unread) (refl, refl))
    | inr read ↦
        let st = session_status h config registry in
        elim (Bool-cases (is_missing h stop_host m disk config registry st.health)) [
          | inl gone ↦ inl (rw (cleanup_idle_locked, read, gone) (refl, refl))
          | inr there ↦ elim (Option-cases st.state) [
            | inl absent ↦ inl (rw (cleanup_idle_locked, read, there, absent) (refl, refl))
            | inr (s, e) ↦ elim (cleanup_state-IsOverdue registry s) [
              | inl same ↦ inl (rw (cleanup_idle_locked, read, there, e) same)
              | inr due ↦ inr (s, sym (session_status-state h config registry) ∙ e, due)
            ]
          ]
        ]
  ]

  cleanup_idle_cases :
      (registry : Option SessionState)
      → IsUntouched registry (cleanup_idle h stop_host m disk config registry)
        ⊎ ((s : SessionState) × (registry ≡ some s) × IsOverdue config h.now s)
  unfolding cleanup_idle
  cleanup_idle_cases registry = elim (Bool-cases disk.lock_ok) [
    | inr locked ↦ inl (simp locked (refl, refl))
    | inl open_lock ↦ elim (cleanup_idle_locked-IsOverdue registry) [
      | inr due ↦ inr due
      | inl same ↦ inl (simp open_lock same)
    ]
  ]

  -- The cleanup of idle sessions signals a process or drops the registry only if no client is
  -- connected and the idle deadline has come.
  pub cleanup_idle-IsOverdue :
      (registry : Option SessionState)
      → ((cleanup_idle h stop_host m disk config registry).sent ≢ [])
        ⊎ ((cleanup_idle h stop_host m disk config registry).registry ≢ registry)
      → (s : SessionState) × (registry ≡ some s) × IsOverdue config h.now s
  cleanup_idle-IsOverdue registry acts = elim (cleanup_idle_cases registry) [
    | inr due ↦ due
    | inl (quiet, same) ↦ elim acts [
      | inl sent ↦ absurd (sent quiet)
      | inr changed ↦ absurd (changed same)
    ]
  ]

  unbound_lem :
      (s : SessionState) (at : ℕ)
      → at + config.idle_timeout_ms ≤ date_max
      → (config.idle_timeout_ms ≡ 0) ⊎ (h.now < at + config.idle_timeout_ms)
      → (s' : SessionState) × (unbound config at s ≡ some s') × (¬ IsOverdue config h.now s')
  unfolding unbound effective_idle_deadline
  unbound_lem s at dated early = elim (Bool-cases (config.idle_timeout_ms == 0)) [
    | inl never ↦
        let e : idle_deadline_after config at ≡ some none =
          idle_deadline_after-never config at never in
        (
          record s {
            active_clients = 0;
            last_disconnected_at = some at;
            idle_deadline_at = none;
            updated_at = at;
          },
          rw (unbound, e) refl,
          λ due. let (deadline, set, passed) = due.passed in absurd (ground (arith, set, never, e)),
        )
    | inr bounded ↦
        let e = idle_deadline_after-dated config at bounded dated in
        (
          record s {
            active_clients = 0;
            last_disconnected_at = some at;
            idle_deadline_at = some (at + config.idle_timeout_ms);
            updated_at = at;
          },
          rw (unbound, e) refl,
          λ due.
              let (deadline, set, passed) = due.passed in
              absurd (ground (arith, set, passed, early, bounded)),
        )
  ]

  spared :
      (s : SessionState)
      → ¬ IsOverdue config h.now s
      → IsUntouched (some s) (cleanup_idle h stop_host m disk config (some s))
  spared s not_due = elim (cleanup_idle_cases (some s)) [
    | inl same ↦ same
    | inr (t, e, due) ↦
        let same : s ≡ t = ground arith in
        absurd (not_due (subst (IsOverdue config h.now) (sym same) due))
  ]

  -- If the idle timeout from a time on ends at a date that `chrono` has, the state of a session
  -- that its client left at that time can be computed, and it is not stopped before the timeout
  -- has passed, and never if the timeout is 0.
  pub cleanup_spares :
      (s : SessionState) (at : ℕ)
      → at + config.idle_timeout_ms ≤ date_max
      → (config.idle_timeout_ms ≡ 0) ⊎ (h.now < at + config.idle_timeout_ms)
      → (s' : SessionState) × (unbound config at s ≡ some s')
        × IsUntouched (some s') (cleanup_idle h stop_host m disk config (some s'))
  cleanup_spares s at dated early =
      let (s', left, not_due) = unbound_lem s at dated early in (s', left, spared s' not_due)
