-- ===== src/Sesman/Cleanup.antt =====
-- src/sesman/mod.rs: the cleanup of idle sessions, the teardown on request, and the reconciliation
-- after the daemon restarted. Each call of `status` sees the host at its own moment.
pub mod Idle
pub mod Reconcile
use cheirizo.Prelude.{
  ℕ, ◌+◌, ◌-◌, min, Bool, true, false, not, ◌&&◌, ◌||◌, ltb, ◌==◌, if◌then◌else◌, Option, none,
  some, List, [], ◌∷◌,
}
use cheirizo.Prelude.Words.{sat_add32}
use cheirizo.Sesman.Process.{is_some}
use cheirizo.Sesman.State.{
  SesmanConfig, SessionState, SessionStatus, SessionHealth, EnsureOptions, ClientInfo, missing,
  healthy, degraded, dead,
}
use cheirizo.Sesman.Health.{Host, session_status, status_can_serve}
use cheirizo.Sesman.Teardown.{
  Disk, Moments, Sent, Teardown, Result, ok, err, SesmanError, session_locked, registry_unreadable,
  registry_unwritable, no_state, cannot_bind, panicked, stop_state,
}
use cheirizo.Sesman.Registry.{read_status, idle_deadline_after, effective_idle_deadline}

-- A cleanup: what it sent, the registry after it, and whether it stopped the session.
pub record Cleanup : Type 0 where
  pub sent : List Sent
  pub registry : Option SessionState
  pub result : Result Bool

abbrev pub kept : Option SessionState → Result Bool → Cleanup
kept registry result = record { sent = []; registry = registry; result = result }

abbrev pub stopped : Teardown → Cleanup
stopped t = record {
  sent = t.sent;
  registry = t.registry;
  result = elim t.result [ ok u ↦ ok true | err e ↦ err e ];
}

module _ (h stop_host : Host) (m : Moments) (disk : Disk) (config : SesmanConfig)
    (registry : Option SessionState) where
  unfoldable pub stop_locked : Teardown
  stop_locked = elim (read_status stop_host disk config registry) [
    | err e ↦ record { sent = []; registry = registry; result = err e }
    | ok st ↦ elim st.state [
      | none ↦ record { sent = []; registry = registry; result = ok tt }
      | some s ↦ stop_state stop_host m disk config s registry
    ]
  ]

  unfoldable pub cleanup_state : SessionState → Cleanup
  unfolding stop_locked
  cleanup_state s =
      if ltb 0 s.active_clients
      then kept registry (ok false)
      else elim (effective_idle_deadline config s) [
        | none ↦ kept registry (err panicked)
        | some due ↦ elim due [
          | none ↦ kept registry (ok false)
          | some deadline ↦
              if ltb h.now deadline then kept registry (ok false) else stopped stop_locked
        ]
      ]

  abbrev pub is_missing : SessionHealth → Bool
  is_missing missing = true
  is_missing healthy = false
  is_missing degraded = false
  is_missing dead = false

  unfoldable pub cleanup_idle_locked : Cleanup
  unfolding cleanup_state
  cleanup_idle_locked = elim (read_status h disk config registry) [
    | err e ↦ kept registry (err e)
    | ok st ↦
        if is_missing st.health
        then kept registry (ok false)
        else elim st.state [ none ↦ kept registry (ok false) | some s ↦ cleanup_state s ]
  ]

  unfoldable pub cleanup_idle : Cleanup
  unfolding cleanup_idle_locked
  cleanup_idle = if disk.lock_ok then cleanup_idle_locked else kept registry (err session_locked)

-- The three steps of the reconciliation on a state; the flag is `changed`, and `none` is a panic.
unfoldable pub reset_clients : SessionState → SessionState × Bool
reset_clients s =
    if ltb 0 s.active_clients then (record s { active_clients = 0 }, true) else (s, false)

unfoldable pub set_left : ℕ → SessionState × Bool → SessionState × Bool
set_left now (s, changed) =
    if s.active_clients == 0 && not (is_some s.last_disconnected_at)
    then (record s { last_disconnected_at = some now }, true)
    else (s, changed)

-- When the last client left, or now.
abbrev pub left_time : ℕ → SessionState → ℕ
left_time now s = elim s.last_disconnected_at [ none ↦ now | some at ↦ at ]

unfoldable pub set_deadline : SesmanConfig → ℕ → SessionState × Bool → Option (SessionState × Bool)
set_deadline config now (s, changed) =
    if s.active_clients == 0
      && not (is_some s.idle_deadline_at)
      && not (config.idle_timeout_ms == 0)
    then elim (idle_deadline_after config (left_time now s)) [
      | none ↦ none
      | some deadline ↦ some (record s { idle_deadline_at = deadline }, true)
    ]
    else some (s, changed)

unfoldable pub reconciled : SesmanConfig → ℕ → SessionState → Option (SessionState × Bool)
reconciled config now s = set_deadline config now (set_left now (reset_clients s))

-- A reconciliation: what it sent, the registry after it, and the last status.
pub record Reconciliation : Type 0 where
  pub sent : List Sent
  pub registry : Option SessionState
  pub result : Result SessionStatus

module _ (h idle_host stop_host last_host : Host) (m : Moments) (disk : Disk)
    (config : SesmanConfig) where
  -- The cleanup and the final status, of the registry that was written or left.
  unfoldable pub reconcile_rest : Option SessionState → Reconciliation
  unfolding cleanup_idle_locked read_status
  reconcile_rest registry =
      let c = cleanup_idle_locked idle_host stop_host m disk config registry in
      record {
        sent = c.sent;
        registry = c.registry;
        result = elim c.result [
          | err e ↦ err e
          | ok b ↦ read_status last_host disk config c.registry
        ];
      }

  -- `stop`, on the registry under its lock.
  unfoldable pub stop : Option SessionState → Reconciliation
  unfolding stop_locked read_status
  stop registry =
      let t = stop_locked h stop_host m disk config registry in
      if not disk.lock_ok
      then record { sent = []; registry = registry; result = err session_locked }
      else record {
        sent = t.sent;
        registry = t.registry;
        result = elim t.result [
          | err e ↦ err e
          | ok u ↦ read_status last_host disk config t.registry
        ];
      }

  unfoldable pub reconcile_state : Option SessionState → SessionState → Reconciliation
  unfolding reconciled reconcile_rest
  reconcile_state registry s = elim (reconciled config h.now s) [
    | none ↦ record { sent = []; registry = registry; result = err panicked }
    | some r ↦
        if not r.1
        then reconcile_rest registry
        else if disk.write_ok
        then reconcile_rest (some (record r.0 { updated_at = h.now }))
        else record { sent = []; registry = registry; result = err registry_unwritable }
  ]

  unfoldable pub reconcile_after_daemon_restart : Option SessionState → Reconciliation
  unfolding reconcile_state
  reconcile_after_daemon_restart registry =
      if not disk.lock_ok
      then record { sent = []; registry = registry; result = err session_locked }
      else elim (read_status h disk config registry) [
        | err e ↦ record { sent = []; registry = registry; result = err e }
        | ok st ↦ elim st.state [
          | none ↦ record { sent = []; registry = registry; result = ok st }
          | some s ↦ reconcile_state registry s
        ]
      ]
