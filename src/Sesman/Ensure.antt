-- ===== src/Sesman/Ensure.antt =====
-- src/sesman/mod.rs: `ensure`, the choice between a session that can be reused and a new one.
pub mod Fresh
pub mod Failure
use cheirizo.Prelude.{
  ℕ, Bool, true, false, not, ◌&&◌, ◌||◌, if◌then◌else◌, Option, none, some, List, [], ◌∷◌, ◌++◌,
  Text,
}
use cheirizo.Sesman.Process.{status, process_matches}
use cheirizo.Sesman.State.{
  SesmanConfig, ComponentConfig, ComponentState, SessionState, SessionStatus, SessionHealth,
  EnsureOptions, missing, healthy, degraded, dead, new_state,
}
use cheirizo.Sesman.Health.{
  Host, session_status, status_can_serve, component_signature, find_state, readiness_holds,
}
use cheirizo.Sesman.Teardown.{
  Disk, Moments, Sent, Teardown, Result, ok, err, SesmanError, no_state, stop_state,
  registry_unwritable, cleanup_failed, session_locked,
}
use cheirizo.Sesman.Registry.{read_status, update_reconnect_state}
use cheirizo.Sesman.Cleanup.{stop_locked}
use cheirizo.Sesman.Start.{Start, Started, StartError, start_components}

pub data EnsureError : Type 0 where
  not_prepared : EnsureError
  sesman : SesmanError → EnsureError
  startup : StartError → EnsureError

-- What `ensure` sent, the registry after it, what it spawned, and whether it reused a session, with
-- the last status, or an error.
pub record Ensured : Type 0 where
  pub sent : List Sent
  pub registry : Option SessionState
  pub running : List ComponentState
  pub error : Option EnsureError
  pub reused : Bool

-- The looks at the host and the kernel, and the outcomes of the starts, in the order of the calls.
pub record Course : Type 0 where
  pub prepared : Bool
  pub first : Host
  pub force_host : Host
  pub force_moments : Moments
  pub force_disk : Disk
  pub after_force : Host
  pub stale_host : Host
  pub stale_moments : Moments
  pub stale_disk : Disk
  pub id : ℕ
  pub starts : List Start
  pub failed_host : Host
  pub failed_moments : Moments
  pub failed_disk : Disk
  pub last : Host
  pub last_disk : Disk

abbrev pub refuse : List Sent → Option SessionState → SesmanError → Ensured
refuse sent registry e = record {
  sent = sent;
  registry = registry;
  running = [];
  error = some (sesman e);
  reused = false;
}

abbrev pub is_stale : SessionHealth → Bool
is_stale missing = false
is_stale healthy = false
is_stale degraded = true
is_stale dead = true

module _ (c : Course) (disk : Disk) (config : SesmanConfig) (options : EnsureOptions) where
  -- The result of the final `status`.
  abbrev pub conclude : List Sent → Option SessionState → List ComponentState → Bool → Ensured
  conclude sent registry running reused = record {
    sent = sent;
    registry = registry;
    running = running;
    error = elim (read_status c.last c.last_disk config registry) [
      | ok st ↦ none
      | err e ↦ some (sesman e)
    ];
    reused = reused;
  }

  abbrev pub fresh_state : SessionState
  fresh_state = update_reconnect_state c.stale_host.now options (
      new_state config c.stale_host.now c.id c.stale_host.kernel.boot_id
        (c.stale_host.uid_for_user config.user) (c.stale_host.gid_for_user config.user))

  -- A start that fails is torn down by the state in memory.
  unfoldable pub ensure_started : List Sent → Started → Ensured
  ensure_started sent started =
      let t =
        stop_state c.failed_host c.failed_moments c.failed_disk config started.state
          started.registry in
      elim started.error [
        | none ↦ conclude sent started.registry started.running false
        | some e ↦ record {
          sent = sent ++ t.sent;
          registry = t.registry;
          running = started.running;
          error = some (startup e);
          reused = false;
        }
      ]

  -- The start of a new session.
  unfoldable pub ensure_fresh : List Sent → Option SessionState → Ensured
  unfolding start_components ensure_started
  ensure_fresh sent registry =
      if not disk.cleanup_ok
      then refuse sent registry cleanup_failed
      else ensure_started sent (start_components config fresh_state registry [] c.starts)

  unfoldable pub ensure_reuse : List Sent → Option SessionState → Host → SessionStatus → Ensured
  ensure_reuse sent registry h st = elim st.state [
    | none ↦ refuse sent registry no_state
    | some s ↦
        let s' = update_reconnect_state h.now options s in
        if disk.write_ok
        then conclude sent (some s') [] true
        else refuse sent registry registry_unwritable
  ]

  -- The start after a stale session was stopped.
  unfoldable pub ensure_after : List Sent → Teardown → Ensured
  unfolding ensure_fresh
  ensure_after sent t = elim t.result [
    | err e ↦ refuse (sent ++ t.sent) t.registry e
    | ok u ↦ ensure_fresh (sent ++ t.sent) t.registry
  ]

  -- The choice by the status that was read last.
  unfoldable pub ensure_status : List Sent → Option SessionState → Host → SessionStatus → Ensured
  unfolding ensure_after ensure_reuse
  ensure_status sent registry h st =
      if status_can_serve config st
      then ensure_reuse sent registry h st
      else if is_stale st.health
      then ensure_after sent
          (stop_locked h c.stale_host c.stale_moments c.stale_disk config registry)
      else ensure_fresh sent registry

  unfoldable pub ensure_read : List Sent → Option SessionState → Host → Ensured
  unfolding ensure_status
  ensure_read sent registry h = elim (read_status h disk config registry) [
    | err e ↦ refuse sent registry e
    | ok st ↦ ensure_status sent registry h st
  ]

  -- The forced restart, of the teardown that it does first.
  unfoldable pub ensure_forced : Teardown → Ensured
  unfolding ensure_read
  ensure_forced t = elim t.result [
    | err e ↦ refuse t.sent t.registry e
    | ok u ↦ ensure_read t.sent t.registry c.after_force
  ]

  abbrev pub unprepared : Option SessionState → Ensured
  unprepared registry = record {
    sent = [];
    registry = registry;
    running = [];
    error = some not_prepared;
    reused = false;
  }

  -- What follows the first `status`.
  unfoldable pub ensure_first : Option SessionState → Result SessionStatus → Ensured
  unfolding ensure_forced ensure_status
  ensure_first registry (err e) = refuse [] registry e
  ensure_first registry (ok st) =
      if not options.force_restart
      then ensure_status [] registry c.first st
      else ensure_forced
          (stop_locked c.first c.force_host c.force_moments c.force_disk config registry)

  unfoldable pub ensure : Option SessionState → Ensured
  unfolding ensure_first
  ensure registry =
      if not c.prepared
      then unprepared registry
      else if not disk.lock_ok
      then refuse [] registry session_locked
      else ensure_first registry (read_status c.first disk config registry)
