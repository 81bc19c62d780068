-- ===== src/Sesman/Teardown.antt =====
-- src/sesman/mod.rs: `stop_state`. The kernel changes while targets stop, so each look at it is an
-- argument. The waiting loops only look, and are left out.
pub mod Authorized
pub mod Survivors
pub mod Reached
use mathlib.Core.List.{reverse}
use cheirizo.Prelude.{
  ℕ, zero, suc, ◌+◌, Bool, true, false, not, ◌&&◌, ◌||◌, ◌==◌, if◌then◌else◌, Option, none, some,
  List, [], ◌∷◌, ◌++◌, map, retain, Text,
}
use cheirizo.Sesman.Process.{
  Kernel, signal, process_matches, process_group_alive, is_empty, is_number,
}
use cheirizo.Sesman.State.{SesmanConfig, ComponentState, SessionState, SessionHealth}
use cheirizo.Sesman.Health.{Host, component_signature, state_belongs_to_config}

pub data SesmanError : Type 0 where
  session_locked registry_unreadable registry_unwritable no_state : SesmanError
  signal_failed cleanup_failed registry_not_removed : SesmanError
  cannot_bind : SessionHealth → SesmanError
  targets_survived : List Text → SesmanError
  -- No error of the code: the call panics.
  panicked : SesmanError

pub data Result {ℓ} (A : Type ℓ) : Type ℓ where
  ok : A → Result A
  err : SesmanError → Result A

-- What the file system lets through during a call.
pub record Disk : Type 0 where
  pub lock_ok : Bool
  pub read_ok : Bool
  pub write_ok : Bool
  pub cleanup_ok : Bool
  pub remove_ok : Bool

-- The looks at the kernel, by the index of the component, and the answers of `kill`.
pub record Moments : Type 0 where
  pub authorize : ℕ → Kernel
  pub term_look : ℕ → Kernel
  pub term_sent : ℕ → Bool
  pub term_again : ℕ → Kernel
  pub kill_look : ℕ → Kernel
  pub kill_sent : ℕ → Bool
  pub kill_again : ℕ → Kernel
  pub last_look : ℕ → Kernel

pub data Signal : Type 0 where
  sigterm sigkill : Signal

-- A call of `signal_process`.
pub record Sent : Type 0 where
  pub signal : Signal
  pub pid : ℕ
  pub process_group : Bool

pub record Target : Type 0 where
  pub index : ℕ
  pub component : ComponentState
  pub authorized : Bool

unfoldable pub is_authorized : Bool → Kernel → ComponentState → Bool
is_authorized owned k c =
    owned
    && process_matches k (component_signature c) signal
    && (not c.process_group || is_number c.pgid c.pid)

-- The components with their indices, counted from `i`.
unfoldable pub targets : Bool → (ℕ → Kernel) → ℕ → List ComponentState → List Target
unfolding is_authorized
targets owned authorize i [] = []
targets owned authorize i (c ∷ cs) =
    record { index = i; component = c; authorized = is_authorized owned (authorize i) c }
    ∷ targets owned authorize (i + 1) cs

unfoldable pub target_alive : Kernel → Target → Bool
target_alive k t =
    t.authorized
    && (if t.component.process_group
        then process_group_alive k t.component.pid
        else process_matches k (component_signature t.component) signal)

abbrev pub sent_to : Signal → Target → Sent
sent_to s t = record {
  signal = s;
  pid = t.component.pid;
  process_group = t.component.process_group;
}

-- The loop that signals what is alive, and whether it went through; a failed call ends it only if
-- the target is still alive.
unfoldable pub send_round :
    Signal → (ℕ → Kernel) → (ℕ → Bool) → (ℕ → Kernel) → List Target → List Sent × Bool
unfolding target_alive
send_round s look sent again [] = ([], true)
send_round s look sent again (t ∷ ts) =
    let rest = send_round s look sent again ts in
    if not (target_alive (look t.index) t)
    then rest
    else if not (sent t.index) && target_alive (again t.index) t
    then (sent_to s t ∷ [], false)
    else (sent_to s t ∷ rest.0, rest.1)

unfoldable pub survivors : (ℕ → Kernel) → List Target → List Target
unfolding target_alive
survivors look ts = retain (λ t. target_alive (look t.index) t) ts

-- The signals sent, the registry after the call, and its result.
pub record Teardown : Type 0 where
  pub sent : List Sent
  pub registry : Option SessionState
  pub result : Result (Unit {0})

abbrev pub names_of : List Target → List Text
names_of [] = []
names_of (t ∷ ts) = t.component.name ∷ names_of ts

module _ (h : Host) (m : Moments) (disk : Disk) (config : SesmanConfig) (s : SessionState) where
  abbrev pub all_targets : List Target
  all_targets = targets (state_belongs_to_config h config s) m.authorize 0 s.components

  abbrev pub terms : List Sent × Bool
  terms = send_round sigterm m.term_look m.term_sent m.term_again (reverse all_targets)

  abbrev pub kills : List Sent × Bool
  kills = send_round sigkill m.kill_look m.kill_sent m.kill_again (reverse all_targets)

  -- What follows the two rounds.
  unfoldable pub finish : Option SessionState → Option SessionState × Result (Unit {0})
  unfolding survivors
  finish registry =
      if not (is_empty (survivors m.last_look all_targets))
      then (registry, err (targets_survived (names_of (survivors m.last_look all_targets))))
      else if not disk.cleanup_ok
      then (registry, err cleanup_failed)
      else if not disk.remove_ok
      then (registry, err registry_not_removed)
      else (none, ok tt)

  unfoldable pub stop_state : Option SessionState → Teardown
  unfolding send_round finish
  stop_state registry =
      if not terms.1
      then record { sent = terms.0; registry = registry; result = err signal_failed }
      else if not kills.1
      then record { sent = terms.0 ++ kills.0; registry = registry; result = err signal_failed }
      else record {
        sent = terms.0 ++ kills.0;
        registry = (finish registry).0;
        result = (finish registry).1;
      }
