-- ===== src/Sesman/Registry.antt =====
-- src/sesman/mod.rs: the operations on the registry for clients that come and go. Each call of `status` sees the host at its own moment.
pub mod Reads
pub mod Clients
pub mod Dates
use cheirizo.Prelude.{
  ℕ, ◌+◌, ◌-◌, min, Bool, true, false, not, ◌&&◌, ◌||◌, ltb, ◌==◌, if◌then◌else◌, Option, none,
  some, List, [], ◌∷◌,
}
use cheirizo.Prelude.Words.{sat_add32, u64_max}
use cheirizo.Sesman.Process.{is_some}
use cheirizo.Sesman.State.{
  SesmanConfig, SessionState, SessionStatus, SessionHealth, EnsureOptions, ClientInfo, missing,
  healthy, degraded, dead,
}
use cheirizo.Sesman.Health.{Host, session_status, status_can_serve}
use cheirizo.Sesman.Teardown.{
  Disk, Moments, Sent, Teardown, Result, ok, err, SesmanError, session_locked, registry_unreadable,
  registry_unwritable, no_state, cannot_bind, panicked, stop_state,
}

-- `status`: a registry that is there but cannot be trusted, read or parsed is an error.
unfoldable pub read_status : Host → Disk → SesmanConfig → Option SessionState → Result SessionStatus
read_status h disk config registry =
    if is_some registry && not disk.read_ok
    then err registry_unreadable
    else ok (session_status h config registry)

-- The last millisecond of `chrono`'s `DateTime`, and how far before 1970 its first one lies.
abbrev pub date_max : ℕ
date_max = 8210266876799999

abbrev pub date_min : ℕ
date_min = 8334601228800000

-- The sum of a date and a timeout cast `as i64`, which is negative from 2 ^ 63 on; `none` where it
-- panics. A date before 1970 is 0 here: it has passed as well.
unfoldable pub add_timeout : ℕ → ℕ → Option ℕ
add_timeout base timeout =
    let back = u64_max + 1 - timeout in
    if ltb timeout 9223372036854775808
    then if ltb date_max (base + timeout) then none else some (base + timeout)
    else if ltb (base + date_min) back
    then none
    else some (base - back)

-- The outer `none` is a panic.
unfoldable pub idle_deadline_after : SesmanConfig → ℕ → Option (Option ℕ)
unfolding add_timeout
idle_deadline_after config base =
    if config.idle_timeout_ms == 0
    then some none
    else elim (add_timeout base config.idle_timeout_ms) [
      | none ↦ none
      | some deadline ↦ some (some deadline)
    ]

unfoldable pub effective_idle_deadline : SesmanConfig → SessionState → Option (Option ℕ)
effective_idle_deadline config s = elim s.idle_deadline_at [
  | some deadline ↦ some (some deadline)
  | none ↦ if config.idle_timeout_ms == 0 then some none else elim s.last_disconnected_at [
    | none ↦ some none
    | some at ↦ idle_deadline_after config at
  ]
]

-- The new state of a session, by the call; `none` where the call panics.
unfoldable pub bound : ℕ → SessionState → SessionState
bound now s = record s {
  active_clients = 1;
  last_disconnected_at = none;
  idle_deadline_at = none;
  updated_at = now;
}

unfoldable pub unbound : SesmanConfig → ℕ → SessionState → Option SessionState
unbound config now s = elim (idle_deadline_after config now) [
  | none ↦ none
  | some deadline ↦ some (record s {
    active_clients = 0;
    last_disconnected_at = some now;
    idle_deadline_at = deadline;
    updated_at = now;
  })
]

unfoldable pub disconnected : SesmanConfig → ℕ → SessionState → Option SessionState
disconnected config now s =
    if s.active_clients - 1 == 0
    then elim (idle_deadline_after config now) [
      | none ↦ none
      | some deadline ↦ some (record s {
        active_clients = s.active_clients - 1;
        last_disconnected_at = some now;
        idle_deadline_at = deadline;
        updated_at = now;
      })
    ]
    else some (record s { active_clients = s.active_clients - 1; updated_at = now })

-- The three steps of `update_reconnect_state`.
unfoldable pub set_requested_size : EnsureOptions → SessionState → SessionState
set_requested_size options s = elim options.requested_size [
  | none ↦ s
  | some size ↦ record s { requested_size = some size }
]

unfoldable pub set_last_client : ℕ → EnsureOptions → SessionState → SessionState
set_last_client now options s = elim options.client_peer [
  | none ↦ s
  | some peer ↦ record s {
    last_client =
        some (record { peer = peer; connected_at = now; requested_size = options.requested_size });
  }
]

unfoldable pub attach_client : EnsureOptions → SessionState → SessionState
attach_client options s =
    if options.client_connected
    then record s {
      active_clients = sat_add32 s.active_clients 1;
      last_disconnected_at = none;
      idle_deadline_at = none;
    }
    else s

unfoldable pub update_reconnect_state : ℕ → EnsureOptions → SessionState → SessionState
unfolding set_requested_size set_last_client attach_client
update_reconnect_state now options s =
    record (attach_client options (set_last_client now options (set_requested_size options s))) {
      updated_at = now;
    }

-- A call of the manager: the registry after it, and its result.
abbrev pub Outcome {ℓ} : Type ℓ → Type ℓ
Outcome A = Option SessionState × Result A

module _ (h h' : Host) (disk : Disk) (config : SesmanConfig) (registry : Option SessionState) where
  -- `write_state`, a rename that leaves the old registry if it fails, and the final `status`.
  unfoldable pub save : SessionState → Outcome SessionStatus
  unfolding read_status
  save s =
      if disk.write_ok
      then (some s, read_status h' disk config (some s))
      else (registry, err registry_unwritable)

  unfoldable pub bind_status : SessionStatus → Outcome SessionStatus
  unfolding save
  bind_status st =
      if not (status_can_serve config st)
      then (registry, err (cannot_bind st.health))
      else elim st.state [ none ↦ (registry, err no_state) | some s ↦ save (bound h.now s) ]

  unfoldable pub bind_single_client : Outcome SessionStatus
  unfolding bind_status
  bind_single_client =
      if not disk.lock_ok
      then (registry, err session_locked)
      else elim (read_status h disk config registry) [
        | err e ↦ (registry, err e)
        | ok st ↦ bind_status st
      ]

  -- The calls that leave a session that is not there as it is. A call that panics has written
  -- nothing.
  unfoldable pub change_state : (SessionState → Option SessionState) → Outcome SessionStatus
  unfolding save
  change_state f =
      if not disk.lock_ok
      then (registry, err session_locked)
      else elim (read_status h disk config registry) [
        | err e ↦ (registry, err e)
        | ok st ↦ elim st.state [
          | none ↦ (registry, ok st)
          | some s ↦ elim (f s) [ none ↦ (registry, err panicked) | some s' ↦ save s' ]
        ]
      ]

  unfoldable pub unbind_single_client : Outcome SessionStatus
  unfolding change_state
  unbind_single_client = change_state (unbound config h.now)

  unfoldable pub disconnect_client : Outcome SessionStatus
  unfolding change_state
  disconnect_client = change_state (disconnected config h.now)
