-- ===== src/Sesman/Start.antt =====
-- src/sesman/mod.rs: the start of the components in `ensure`, with `wait_until_ready`. The outcome of a
-- spawn and of a write, and what each round of a wait sees, with its time in milliseconds, are
-- arguments; the delay after a component is left out.
pub mod Records
pub mod Waits
use cheirizo.Prelude.{
  ℕ, zero, suc, ◌+◌, ◌/◌, leb, Bool, true, false, not, ◌&&◌, ◌||◌, if◌then◌else◌, Option, none,
  some, List, [], ◌∷◌, ◌++◌, Text,
}
use cheirizo.Sesman.Process.{status, process_matches}
use cheirizo.Sesman.State.{
  SesmanConfig, ComponentConfig, ComponentState, SessionState, SessionStatus, SessionHealth,
  EnsureOptions, missing, healthy, degraded, dead, new_state,
}
use cheirizo.Sesman.Health.{
  Host, session_status, status_can_serve, component_signature, find_state, readiness_holds,
}
use cheirizo.Sesman.Teardown.{
  Disk, Moments, Sent, Teardown, Result, ok, err, SesmanError, no_state, stop_state,
  registry_unwritable, cleanup_failed, session_locked,
}
use cheirizo.Sesman.Registry.{read_status, update_reconnect_state}
use cheirizo.Sesman.Cleanup.{stop_locked}

-- How the wait for a component ends; `exited` and `late` are the errors.
pub data Readiness : Type 0 where
  ready given_up exited late : Readiness

abbrev pub is_running : Host → ComponentConfig → SessionState → Bool
is_running h component s = elim (find_state component.name s.components) [
  | none ↦ false
  | some candidate ↦ process_matches h.kernel (component_signature candidate) status
]

-- The rounds that a wait may take: one sleep is at least 100 milliseconds.
abbrev pub wait_rounds : SesmanConfig → ℕ
wait_rounds config = suc (config.start_timeout_ms / 100 + 1)

module _ (component : ComponentConfig) (s : SessionState) (looks : ℕ → Host) (clock : ℕ → ℕ) where
  -- The loop of `wait_until_ready` from a round on, with what it sees in each round and the time
  -- when it then compares the clock with the deadline; `none` if the rounds do not suffice.
  unfoldable pub wait_from : ℕ → ℕ → ℕ → Option Readiness
  wait_from deadline zero k = none
  wait_from deadline (suc rounds) k =
      let rest = wait_from deadline rounds (k + 1) in
      if not (is_running (looks k) component s)
      then some (if component.required then exited else given_up)
      else if readiness_holds (looks k) component.readiness
      then some ready
      else if leb deadline (clock k)
      then some (if component.required then late else given_up)
      else rest

unfoldable pub wait_until_ready :
    SesmanConfig → ComponentConfig → SessionState → ℕ → (ℕ → Host) → (ℕ → ℕ) → Option Readiness
unfolding wait_from
wait_until_ready config component s began looks clock =
    wait_from component s looks clock (began + config.start_timeout_ms) (wait_rounds config) 0

-- What happens when a component is started: with the time when the wait for it began.
pub record Start : Type 0 where
  pub component : ComponentConfig
  pub spawned : Option ComponentState
  pub written : Bool
  pub updated_at : ℕ
  pub began : ℕ
  pub looks : ℕ → Host
  pub clock : ℕ → ℕ

-- `wait_goes_on` is no error of the code: the clock does not reach the deadline in the rounds of the
-- wait.
pub data StartError : Type 0 where
  not_spawned not_written not_ready wait_goes_on : StartError

-- The state in memory, the registry, the processes that were spawned, and the error, if any.
pub record Started : Type 0 where
  pub state : SessionState
  pub registry : Option SessionState
  pub running : List ComponentState
  pub error : Option StartError

abbrev pub failed : SessionState → Option SessionState → List ComponentState → StartError → Started
failed s registry running e = record {
  state = s;
  registry = registry;
  running = running;
  error = some e;
}

-- The error that a wait comes to, if any.
abbrev pub wait_error : Option Readiness → Option StartError
wait_error none = some wait_goes_on
wait_error (some ready) = none
wait_error (some given_up) = none
wait_error (some exited) = some not_ready
wait_error (some late) = some not_ready

-- The state with one more process.
abbrev pub pushed : SessionState → ComponentState → ℕ → SessionState
pushed s c now = record s { components = s.components ++ c ∷ []; updated_at = now }

-- The loop over the components.
unfoldable pub start_components :
    SesmanConfig → SessionState → Option SessionState → List ComponentState → List Start → Started
unfolding wait_until_ready
start_components config s registry running [] = record {
  state = s;
  registry = registry;
  running = running;
  error = none;
}
start_components config s registry running (start ∷ starts) = elim start.spawned [
  | none ↦ failed s registry running not_spawned
  | some c ↦
      let s' = pushed s c start.updated_at in
      let rest = start_components config s' (some s') (running ++ c ∷ []) starts in
      let waited =
        wait_error
          (wait_until_ready config start.component s' start.began start.looks start.clock) in
      if not start.written
      then failed s' registry (running ++ c ∷ []) not_written
      else elim waited [ some e ↦ failed s' (some s') (running ++ c ∷ []) e | none ↦ rest ]
]
