-- ===== src/Sesman/Ensure/Failure.antt =====
-- What becomes of the processes of a start that fails, and which sessions are reused.
use cheirizo.Prelude.{
  Bool, true, false, not, All, Option, some, List, [], ◌++◌, ◌≡◌, refl, sym, ap, ◌∙◌, arith, ◌⊎◌,
  inl, inr, Option-cases, if◌then◌else◌,
}
use cheirizo.Sesman.State.{
  SesmanConfig, ComponentState, SessionState, SessionStatus, EnsureOptions, new_state,
}
use cheirizo.Sesman.Health.{Host, status_can_serve}
use cheirizo.Sesman.Teardown.{
  Disk, Sent, Target, Result, ok, err, SesmanError, stop_state, terms, all_targets, sigterm,
  cleanup_failed, no_state, registry_unwritable, session_locked, Teardown,
}
use cheirizo.Sesman.Teardown.Reached.{IsReached, stop_state-IsReached}
use cheirizo.Sesman.Teardown.Survivors.{IsDone, stop_state_outcomes}
use cheirizo.Sesman.Registry.{read_status, update_reconnect_state}
use cheirizo.Sesman.Registry.Reads.{read_status-cases}
use cheirizo.Sesman.Cleanup.{stop_locked}
use cheirizo.Sesman.Ensure.{
  Course, Ensured, startup, fresh_state, ensure_fresh, ensure_reuse, ensure_status, ensure,
  is_stale, conclude, refuse, ensure_started, ensure_after, ensure_read, ensure_forced,
  ensure_first, unprepared,
}
use cheirizo.Sesman.Ensure.Fresh.{update_components, Result-cases}
use cheirizo.Sesman.Start.{Started, StartError, start_components}
use cheirizo.Sesman.Start.Records.{start_components-records}

module _ (c : Course) (disk : Disk) (config : SesmanConfig) (options : EnsureOptions)
    (registry : Option SessionState) where
  -- The host at the last look before the choice, what was sent, and the registry: nothing has
  -- happened since the first look, or the forced restart has torn the session on record down.
  abbrev pub IsFirst : Host → List Sent → Option SessionState → Type 0
  IsFirst h sent reg =
      let t = stop_locked c.first c.force_host c.force_moments c.force_disk config registry in
      ((options.force_restart ≡ false) × (h ≡ c.first) × (sent ≡ []) × (reg ≡ registry))
      ⊎ ((options.force_restart ≡ true)
          × (t.result ≡ ok tt)
          × (h ≡ c.after_force)
          × (sent ≡ t.sent)
          × (reg ≡ t.registry))

  -- Whether the session that was found at the last look is stale.
  abbrev pub IsFound : Host → Option SessionState → Bool → Type 0
  IsFound h reg stale =
      (st : SessionStatus) × (read_status h disk config reg ≡ ok st) × (is_stale st.health ≡ stale)

  -- The stop of a stale session.
  abbrev pub stale_teardown : Host → Option SessionState → Teardown
  stale_teardown h reg = stop_locked h c.stale_host c.stale_moments c.stale_disk config reg

  -- What was sent, and the registry, when a new session is started: after the first choice, or after
  -- a stale session was torn down besides.
  pub data IsCleared (sent : List Sent) (reg : Option SessionState) : Type 0 where
    nothing_stale : (h : Host) → IsFirst h sent reg → IsFound h reg false → IsCleared sent reg
    stale_stopped :
        (h : Host) (sent' : List Sent) (reg' : Option SessionState)
        → IsFirst h sent' reg'
        → IsFound h reg' true
        → (stale_teardown h reg').result ≡ ok tt
        → sent ≡ sent' ++ (stale_teardown h reg').sent
        → reg ≡ (stale_teardown h reg').registry
        → IsCleared sent reg

  -- The start of the components of the new session.
  abbrev pub start_of : Option SessionState → Started
  start_of reg = start_components config (fresh_state c disk config options) reg [] c.starts

  abbrev pub teardown_of : Option SessionState → Teardown
  teardown_of reg =
      stop_state c.failed_host c.failed_moments c.failed_disk config (start_of reg).state
        (start_of reg).registry

  abbrev pub targets_of : Option SessionState → List Target
  targets_of reg =
      all_targets c.failed_host c.failed_moments c.failed_disk config (start_of reg).state

  -- The call went as far as the start, which failed, and ended with a teardown of what it had
  -- spawned.
  pub record IsTornDown (r : Ensured) : Type 0 where
    pub before : List Sent
    pub cleared : Option SessionState
    pub is_cleared : IsCleared before cleared
    pub cause : StartError
    pub failed : (start_of cleared).error ≡ some cause
    pub told : r.error ≡ some (startup cause)
    pub all_recorded : (start_of cleared).state.components ≡ r.running
    pub signalled : r.sent ≡ before ++ (teardown_of cleared).sent
    pub left : r.registry ≡ (teardown_of cleared).registry
    pub reached :
        (terms c.failed_host c.failed_moments c.failed_disk config (start_of cleared).state).1
          ≡ true
        → All
            (IsReached sigterm c.failed_moments.term_look (teardown_of cleared).sent)
            (targets_of cleared)
    pub outcome :
        IsDone c.failed_host c.failed_moments c.failed_disk config
          (start_of cleared).state
          r.registry
        ⊎ (r.registry ≡ (start_of cleared).registry)

  -- An error of the start, as opposed to one before it.
  abbrev pub IsStartupError : Ensured → Type 0
  IsStartupError r = (e : StartError) × (r.error ≡ some (startup e))

  -- What holds of every outcome: an error of the start comes with a teardown.
  abbrev Safe : Ensured → Type 0
  Safe r = IsStartupError r → IsTornDown r

  Safe-if : (b : Bool) (x y : Ensured) → Safe x → Safe y → Safe (if b then x else y)
  Safe-if true x y p q = p
  Safe-if false x y p q = q

  Safe-split :
      (b : Bool) (x y : Ensured)
      → (b ≡ true → Safe x)
      → (b ≡ false → Safe y)
      → Safe (if b then x else y)
  Safe-split true x y p q = p refl
  Safe-split false x y p q = q refl

  Safe-by :
      (b : Bool) (x y : Ensured)
      → (b ≡ true → Safe x)
      → (b ≡ false → Safe y)
      → Safe (if not b then y else x)
  Safe-by true x y p q = p refl
  Safe-by false x y p q = q refl

  refuse-Safe :
      (sent : List Sent) (reg : Option SessionState) (x : SesmanError) → Safe (refuse sent reg x)
  refuse-Safe sent reg x (e, failed) = absurd (cc failed)

  conclude-Safe :
      (sent : List Sent) (reg : Option SessionState) (running : List ComponentState) (reused : Bool)
      → Safe (conclude c disk config options sent reg running reused)
  conclude-Safe sent reg running reused (e, failed) =
      elim (read_status-cases c.last c.last_disk config reg) [
        | inl unread ↦ absurd (ground (arith, unread, failed))
        | inr read ↦ absurd (ground (arith, read, failed))
      ]

  -- How the teardown of a start ends.
  teardown_outcome :
      (reg : Option SessionState)
      → IsDone c.failed_host c.failed_moments c.failed_disk config
          (start_of reg).state
          (teardown_of reg).registry
        ⊎ ((teardown_of reg).registry ≡ (start_of reg).registry)
  teardown_outcome reg =
      elim (stop_state_outcomes c.failed_host c.failed_moments c.failed_disk config
        (start_of reg).state (start_of reg).registry) [
          | inl (fine, done) ↦ inl done
          | inr (x, bad, kept) ↦ inr kept
        ]

  ensure_started-Safe :
      (sent : List Sent) (reg : Option SessionState)
      → IsCleared sent reg
      → (start_of reg).state.components ≡ (start_of reg).running
      → Safe (ensure_started c disk config options sent (start_of reg))
  unfolding ensure_started
  ensure_started-Safe sent reg at recorded = elim (Option-cases (start_of reg).error) [
    | inl fine ↦ rw fine (conclude-Safe sent (start_of reg).registry (start_of reg).running false)
    | inr (x, bad) ↦ rw bad (λ failed. record {
      before = sent;
      cleared = reg;
      is_cleared = at;
      cause = x;
      failed = bad;
      told = refl;
      all_recorded = recorded;
      signalled = refl;
      left = refl;
      reached =
          stop_state-IsReached c.failed_host c.failed_moments c.failed_disk config
            (start_of reg).state (start_of reg).registry;
      outcome = teardown_outcome reg;
    })
  ]

  fresh_state_empty : (fresh_state c disk config options).components ≡ []
  unfolding new_state
  fresh_state_empty = update_components options _ c.stale_host.now

  ensure_fresh-Safe :
      (sent : List Sent) (reg : Option SessionState)
      → IsCleared sent reg
      → Safe (ensure_fresh c disk config options sent reg)
  unfolding ensure_fresh
  ensure_fresh-Safe sent reg at =
      let started = start_components config (fresh_state c disk config options) reg [] c.starts in
      let (spawned, e, f) =
        start_components-records config c.starts (fresh_state c disk config options) reg [] in
      Safe-if (not disk.cleanup_ok) (refuse sent reg cleanup_failed)
        (ensure_started c disk config options sent started) (refuse-Safe sent reg cleanup_failed)
        (ensure_started-Safe sent reg at
          (f ∙ (ap (λ (cs : List ComponentState). cs ++ spawned) fresh_state_empty ∙ sym e)))

  ensure_reuse-Safe :
      (sent : List Sent) (reg : Option SessionState) (h : Host) (st : SessionStatus)
      → Safe (ensure_reuse c disk config options sent reg h st)
  unfolding ensure_reuse
  ensure_reuse-Safe sent reg h st = elim (Option-cases st.state) [
    | inl absent ↦ rw absent (refuse-Safe sent reg no_state)
    | inr (s, there) ↦
        let s' = update_reconnect_state h.now options s in
        rw there (
          Safe-if disk.write_ok (conclude c disk config options sent (some s') [] true)
            (refuse sent reg registry_unwritable) (conclude-Safe sent (some s') [] true)
            (refuse-Safe sent reg registry_unwritable))
  ]

  ensure_after-Safe :
      (sent : List Sent) (t : Teardown)
      → (t.result ≡ ok tt → IsCleared (sent ++ t.sent) t.registry)
      → Safe (ensure_after c disk config options sent t)
  unfolding ensure_after
  ensure_after-Safe sent t at = elim (Result-cases t.result) [
    | inl (x, bad) ↦ rw bad (refuse-Safe (sent ++ t.sent) t.registry x)
    | inr (u, fine) ↦ rw fine (ensure_fresh-Safe (sent ++ t.sent) t.registry (at fine))
  ]

  ensure_status-Safe :
      (sent : List Sent) (reg : Option SessionState) (h : Host) (st : SessionStatus)
      → IsFirst h sent reg
      → read_status h disk config reg ≡ ok st
      → Safe (ensure_status c disk config options sent reg h st)
  unfolding ensure_status
  ensure_status-Safe sent reg h st at read =
      let t = stop_locked h c.stale_host c.stale_moments c.stale_disk config reg in
      Safe-if (status_can_serve config st) (ensure_reuse c disk config options sent reg h st)
        (if is_stale st.health
          then ensure_after c disk config options sent t
          else ensure_fresh c disk config options sent reg)
        (ensure_reuse-Safe sent reg h st)
        (Safe-split (is_stale st.health) (ensure_after c disk config options sent t)
          (ensure_fresh c disk config options sent reg)
          (λ stale.
            ensure_after-Safe sent t
              (λ fine. stale_stopped h sent reg at (st, read, stale) fine refl refl))
          (λ fresh. ensure_fresh-Safe sent reg (nothing_stale h at (st, read, fresh))))

  ensure_read-Safe :
      (sent : List Sent) (reg : Option SessionState) (h : Host)
      → IsFirst h sent reg
      → Safe (ensure_read c disk config options sent reg h)
  unfolding ensure_read
  ensure_read-Safe sent reg h at = elim (Result-cases (read_status h disk config reg)) [
    | inl (x, bad) ↦ rw (ensure_read, bad) (refuse-Safe sent reg x)
    | inr (st, fine) ↦ rw (ensure_read, fine) (ensure_status-Safe sent reg h st at fine)
  ]

  ensure_forced-Safe :
      (t : Teardown)
      → (t.result ≡ ok tt → IsFirst c.after_force t.sent t.registry)
      → Safe (ensure_forced c disk config options t)
  unfolding ensure_forced
  ensure_forced-Safe t at = elim (Result-cases t.result) [
    | inl (x, bad) ↦ rw bad (refuse-Safe t.sent t.registry x)
    | inr (u, fine) ↦ rw fine (ensure_read-Safe t.sent t.registry c.after_force (at fine))
  ]

  ensure_first-Safe :
      (r : Result SessionStatus)
      → read_status c.first disk config registry ≡ r
      → Safe (ensure_first c disk config options registry r)
  unfolding ensure_first
  ensure_first-Safe (err e) read = refuse-Safe [] registry e
  ensure_first-Safe (ok st) read =
      let t = stop_locked c.first c.force_host c.force_moments c.force_disk config registry in
      Safe-by options.force_restart (ensure_forced c disk config options t)
        (ensure_status c disk config options [] registry c.first st)
        (λ forced. ensure_forced-Safe t (λ fine. inr (forced, fine, refl, refl, refl)))
        (λ kept. ensure_status-Safe [] registry c.first st (inl (kept, refl, refl, refl)) read)

  -- If a call of `ensure` fails in the start of a session, the start was that of the new session, on
  -- the registry and after the signals that a forced restart, if it was asked for, and the stop of the
  -- session, if it was then found stale, have left; all that it spawned is on record in the state of the start; the call sends, after those
  -- signals, the ones of a teardown of that state, and leaves the registry of this teardown. Unless
  -- a call of `kill` fails for a target that is still alive after it, the teardown sends SIGTERM to
  -- every process spawned that it may signal and that is alive when its turn comes; and it drops the
  -- registry only after all of them were seen to have stopped, or leaves that of the start.
  pub ensure-IsTornDown :
      IsStartupError (ensure c disk config options registry)
      → IsTornDown (ensure c disk config options registry)
  unfolding ensure
  ensure-IsTornDown =
      let first =
        ensure_first c disk config options registry (read_status c.first disk config registry) in
      Safe-if (not c.prepared) (unprepared c disk config options registry)
        (if not disk.lock_ok then refuse [] registry session_locked else first)
        (λ (e, failed). absurd (cc failed))
        (Safe-if (not disk.lock_ok) (refuse [] registry session_locked) first
          (refuse-Safe [] registry session_locked)
          (ensure_first-Safe (read_status c.first disk config registry) refl))
