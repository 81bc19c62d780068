-- ===== src/Sesman/Tests.antt =====
-- Runs of the session manager, on a session of one component with one process.
use cheirizo.Prelude.{
  ℕ, ◌+◌, ◌*◌, ltb, if◌then◌else◌, Bool, leb, ◌&&◌, ◌↔◌, true, false, none, some, [], ◌∷◌, ◌≡◌, ◌⊎◌,
  inl, inr, refl, arith, All, Text, text_eq, ◌==◌,
}
use cheirizo.Sesman.Process.{
  Kernel, ProcessSignature, signal, process_alive, process_matches, is_fully_hardened,
  process_group_alive,
}
use cheirizo.Sesman.Process.Identity.{IsSpawned, signal-IsSpawned}
use cheirizo.Sesman.State.{
  SesmanConfig, ComponentConfig, ComponentState, SessionState, SessionSize, EnsureOptions,
  process_alive_check, unix_socket,
}
use cheirizo.Sesman.Health.{
  Host, session_status, status_can_serve, state_belongs_to_config, dead_and_alive, scan_components,
  removed_components, component_ready, component_signature,
}
use cheirizo.Prelude.Strings.{
  codes, is_whitespace, trim, trim_start, trim_end, between, strip_prefix, strip_suffix, split_once,
  lines, split, line_parts, drop_return,
}
use cheirizo.Auth.Username.{
  validate_username, normalize_local_account_name, after_last, before_first,
}
use cheirizo.Sesman.Scalars.{strip_ini_comment, strip_from, unquote_ini_scalar}
use cheirizo.Sesman.Ini.{
  parse_sesman_ini, parse_lines, parse_line, parse_stripped, apply_entry, apply_sesman_global,
}
use cheirizo.Sesman.Validate.{
  load, loaded, content, validate, validate_rest, validate_components, apply_runtime_defaults,
}
use cheirizo.Sesman.Validate.Accepted.{IsAccepted, validate-IsAccepted, loaded-Running}
use cheirizo.Sesman.Health.Serve.{Running}
use cheirizo.Sesman.Teardown.{
  Disk, Moments, ok, err, SesmanError, stop_state, sigterm, sigkill, send_round, target_alive,
  targets, is_authorized, finish, survivors, terms, all_targets,
}
use cheirizo.Sesman.Teardown.Authorized.{IsVerified, stop_state-IsVerified}
use cheirizo.Sesman.Teardown.Reached.{IsReached, stop_state-IsReached}
use cheirizo.Sesman.Teardown.Survivors.{IsDone, stop_state_outcomes}
use cheirizo.Sesman.Registry.{bound, unbound, effective_idle_deadline, read_status, add_timeout}
use cheirizo.Sesman.Cleanup.{
  cleanup_idle, cleanup_idle_locked, cleanup_state, stop_locked, reconciled,
}
use cheirizo.Sesman.Start.{
  Start, ready, late, not_written, wait_until_ready, wait_from, start_components,
}
use cheirizo.Sesman.Ensure.{
  Course, startup, ensure, ensure_first, ensure_status, ensure_fresh, ensure_started,
}
use cheirizo.Sesman.Start.Waits.{IsWaited, wait_until_ready_ends}
use cheirizo.Sesman.Ensure.Failure.{IsTornDown, ensure-IsTornDown}
use cheirizo.Sesman.Cleanup.Reconcile.{IsReconciled, reconciled-IsReconciled}
use cheirizo.Sesman.Cleanup.Idle.{IsOverdue, IsUntouched, cleanup_idle-IsOverdue, cleanup_spares}

abbrev boot : Text
boot = 7 ∷ []

abbrev compositor : Text
compositor = 99 ∷ []

-- Process 42 of user 1000 runs in a group of its own.
abbrev kernel : Kernel
kernel = record {
  kill_ok = λ pid. pid == 42;
  group_kill_ok = λ pid. pid == 42;
  run_state = λ pid. some 83;
  boot_id = some boot;
  status_uids = λ pid. some (1000, 1000);
  group_of = λ pid. some 42;
  ticks_of = λ pid. some 500;
  started_at_ms = λ pid. some 9000;
}

abbrev signature : ProcessSignature
signature = record {
  pid = 42;
  command = compositor ∷ [];
  started_at = 9000;
  start_ticks = some 500;
  boot_id = some boot;
  uid = some 1000;
  pgid = some 42;
}

signature_matches : process_matches kernel signature signal ≡ true
unfolding process_matches process_alive is_fully_hardened text_eq
signature_matches = refl

signal-IsSpawned_example : IsSpawned kernel signature
signal-IsSpawned_example = signal-IsSpawned kernel signature signature_matches

abbrev host : Host
host = record {
  kernel = kernel;
  now = 20000;
  uid_for_user = λ user. some 1000;
  gid_for_user = λ user. some 1000;
  unix_socket_ready = λ path. true;
}

abbrev size : SessionSize
size = record { width = 1920; height = 1080 }

abbrev component : ComponentConfig
component = record {
  name = compositor;
  command = compositor;
  args = [];
  env = [];
  working_dir = none;
  log_path = none;
  readiness = process_alive_check;
  required = true;
  startup_delay_ms = 0;
}

abbrev config : SesmanConfig
config = record {
  session_name = 100 ∷ [];
  user = 117 ∷ [];
  xdg_runtime_dir = 114 ∷ [];
  state_dir = 115 ∷ [];
  log_dir = 108 ∷ [];
  default_size = size;
  start_timeout_ms = 15000;
  stop_timeout_ms = 10000;
  idle_timeout_ms = 1800000;
  environment = [];
  cleanup_paths = [];
  cleanup_globs = [];
  components = component ∷ [];
}

abbrev running : ComponentState
running = record {
  name = compositor;
  pid = 42;
  command = compositor ∷ [];
  started_at = 9000;
  start_ticks = some 500;
  boot_id = some boot;
  uid = some 1000;
  pgid = some 42;
  required = true;
  process_group = true;
}

abbrev state : SessionState
state = record {
  version = 2;
  id = 1;
  name = 100 ∷ [];
  user = 117 ∷ [];
  created_at = 9000;
  updated_at = 9000;
  xdg_runtime_dir = 114 ∷ [];
  boot_id = some boot;
  uid = some 1000;
  gid = some 1000;
  default_size = size;
  requested_size = none;
  last_client = none;
  active_clients = 0;
  last_disconnected_at = some 10000;
  idle_deadline_at = some 19000;
  components = running ∷ [];
}

serves : status_can_serve config (session_status host config (some state)) ≡ true
unfolding status_can_serve session_status dead_and_alive scan_components removed_components
    component_ready component_signature state_belongs_to_config process_matches process_alive
    is_fully_hardened text_eq
serves = refl

-- The file sets the user and a path over these defaults.
abbrev default : SesmanConfig
default = record config {
  user = 118 ∷ [];
  xdg_runtime_dir = [];
  state_dir = 47 ∷ [];
  log_dir = 47 ∷ [];
}

abbrev file_text : Text
file_text = codes "user=u # x\nxdg_runtime_dir=/r"

abbrev file_config : SesmanConfig
file_config = record default { user = 117 ∷ []; xdg_runtime_dir = 47 ∷ 114 ∷ [] }

abbrev file_state : SessionState
file_state = record state { xdg_runtime_dir = 47 ∷ 114 ∷ [] }

abbrev is_letter : ℕ → Bool
is_letter c = leb 97 c && leb c 122

from_file :
    load is_letter (λ c. false) (λ s. s) (λ s. s) default (some (content file_text))
    ≡ loaded file_config
unfolding load parse_sesman_ini parse_lines parse_line parse_stripped apply_entry
    apply_sesman_global strip_ini_comment strip_from unquote_ini_scalar trim trim_start trim_end
    is_whitespace between strip_prefix strip_suffix split_once lines split line_parts drop_return
    text_eq validate validate_rest validate_components apply_runtime_defaults validate_username
    normalize_local_account_name after_last before_first
from_file = refl

file_serves :
    status_can_serve file_config (session_status host file_config (some file_state)) ≡ true
unfolding status_can_serve session_status dead_and_alive scan_components removed_components
    component_ready component_signature state_belongs_to_config process_matches process_alive
    is_fully_hardened text_eq
file_serves = refl

loaded-Running_example :
    (s : SessionState) × (some file_state ≡ some s)
    × (state_belongs_to_config host file_config s ≡ true)
    × All
        (λ (c : ComponentConfig). c.required ≡ true → Running host s.components c)
        (component ∷ [])
loaded-Running_example =
    loaded-Running is_letter (λ c. false) (λ s. s) (λ s. s) default file_config file_text host
      (some file_state) from_file file_serves

validate-IsAccepted_example :
    (validate is_letter (λ c. false) file_config ≡ none)
    ↔ IsAccepted is_letter (λ c. false) file_config
validate-IsAccepted_example = validate-IsAccepted is_letter (λ c. false) file_config

-- Every look sees the process, and every signal arrives.
abbrev stubborn : Moments
stubborn = record {
  authorize = λ i. kernel;
  term_look = λ i. kernel;
  term_sent = λ i. true;
  term_again = λ i. kernel;
  kill_look = λ i. kernel;
  kill_sent = λ i. true;
  kill_again = λ i. kernel;
  last_look = λ i. kernel;
}

abbrev disk : Disk
disk = record {
  lock_ok = true;
  read_ok = true;
  write_ok = true;
  cleanup_ok = true;
  remove_ok = true;
}

stop_state-IsVerified_example :
    All
      (IsVerified host stubborn disk config state)
      (stop_state host stubborn disk config state (some state)).sent
stop_state-IsVerified_example = stop_state-IsVerified host stubborn disk config state (some state)

stop_state_outcomes_example :
    let r = stop_state host stubborn disk config state (some state) in
    ((r.result ≡ ok tt) × IsDone host stubborn disk config state r.registry)
    ⊎ ((x : SesmanError) × (r.result ≡ err x) × (r.registry ≡ some state))
stop_state_outcomes_example = stop_state_outcomes host stubborn disk config state (some state)

signals_go_through : (terms host stubborn disk config state).1 ≡ true
unfolding send_round target_alive targets is_authorized state_belongs_to_config process_matches
    process_alive process_group_alive is_fully_hardened text_eq component_signature
signals_go_through = refl

stop_state-IsReached_example :
    All
      (IsReached sigterm stubborn.term_look
        (stop_state host stubborn disk config state (some state)).sent)
      (all_targets host stubborn disk config state)
stop_state-IsReached_example =
    stop_state-IsReached host stubborn disk config state (some state) signals_go_through

abbrev attaching : EnsureOptions
attaching = record {
  force_restart = false;
  requested_size = none;
  client_peer = none;
  client_connected = true;
}

sends :
    (cleanup_idle host host stubborn disk config (some state)).sent
    ≡ record { signal = sigterm; pid = 42; process_group = true }
      ∷ record { signal = sigkill; pid = 42; process_group = true }
      ∷ []
unfolding cleanup_idle cleanup_idle_locked cleanup_state read_status session_status dead_and_alive
    scan_components removed_components component_ready component_signature state_belongs_to_config
    process_matches process_alive process_group_alive is_fully_hardened text_eq
    effective_idle_deadline stop_locked stop_state send_round target_alive targets is_authorized
    finish survivors
sends = refl

cleanup_idle-IsOverdue_example :
    (s : SessionState) × (some state ≡ some s) × IsOverdue config 20000 s
cleanup_idle-IsOverdue_example =
    cleanup_idle-IsOverdue host host stubborn disk config (some state)
      (inl (λ e. absurd (cc (e, sends))))

cleanup_spares_example :
    (s' : SessionState) × (unbound config 20000 state ≡ some s')
    × IsUntouched (some s') (cleanup_idle host host stubborn disk config (some s'))
cleanup_spares_example =
    cleanup_spares host host stubborn disk config state 20000 (omega arith) (inr (omega arith))

reconciled-IsReconciled_example :
    (s' : SessionState) × (changed : Bool) × (reconciled config 20000 (bound 9000 state)
      ≡ some (s', changed))
    × IsReconciled config s'
    × ((changed ≡ true) ⊎ (s' ≡ bound 9000 state))
    × (reconciled config 40000 s' ≡ some (s', false))
unfolding bound
reconciled-IsReconciled_example =
    reconciled-IsReconciled config 20000 40000 (bound 9000 state) (omega arith)

-- Timeouts of 2 ^ 64 - 1 and of 2 ^ 63 milliseconds: the deadline lies before the disconnection, or
-- its computation panics.
wrapped_deadline : add_timeout 20000 18446744073709551615 ≡ some 19999
unfolding add_timeout
wrapped_deadline = refl

panicking_deadline : add_timeout 20000 9223372036854775808 ≡ none
unfolding add_timeout
panicking_deadline = refl

-- A component that is ready in the third round, by a clock that starts at 5 and ticks every 120
-- milliseconds; and a socket that never comes.
abbrev ticking : ℕ → ℕ
ticking k = 5 + 120 * k

abbrev deaf : Host
deaf = record host { unix_socket_ready = λ path. false }

abbrev slow : ℕ → Host
slow k = if ltb k 2 then deaf else host

abbrev listening : ComponentConfig
listening = record component { readiness = unix_socket (4 ∷ []) }

wait_until_ready_ends_example :
    IsWaited config listening state 5 slow ticking
      (wait_until_ready config listening state 5 slow ticking)
wait_until_ready_ends_example =
    wait_until_ready_ends config listening state 5 slow ticking (omega arith) (λ k. omega arith)

listening_waits :
    (wait_until_ready config listening state 5 slow ticking ≡ some ready)
    × (wait_until_ready
          (record config { start_timeout_ms = 300 })
          listening
          state
          5
          (λ k. deaf)
          ticking
        ≡ some late)
unfolding wait_until_ready wait_from process_matches process_alive is_fully_hardened text_eq
    component_signature
listening_waits = (refl, refl)

-- The first start, whose process is spawned but cannot be put into the registry.
abbrev unwritten : Start
unwritten = record {
  component = component;
  spawned = some running;
  written = false;
  updated_at = 20000;
  began = 5;
  looks = slow;
  clock = ticking;
}

abbrev course : Course
course = record {
  prepared = true;
  first = host;
  force_host = host;
  force_moments = stubborn;
  force_disk = disk;
  after_force = host;
  stale_host = host;
  stale_moments = stubborn;
  stale_disk = disk;
  id = 9;
  starts = unwritten ∷ [];
  failed_host = host;
  failed_moments = stubborn;
  failed_disk = disk;
  last = host;
  last_disk = disk;
}

start_fails : (ensure course disk config attaching none).error ≡ some (startup not_written)
unfolding ensure ensure_first ensure_status ensure_fresh ensure_started start_components read_status
    session_status status_can_serve
start_fails = refl

ensure-IsTornDown_example :
    IsTornDown course disk config attaching none (ensure course disk config attaching none)
ensure-IsTornDown_example =
    ensure-IsTornDown course disk config attaching none (not_written, start_fails)
