-- ===== src/Sesman/Process.antt =====
-- src/sesman/process.rs. What the kernel shows at one moment, the parsed files of /proc and the
-- answers of `kill`, is a record. Process ids are numbers, the ids below 0 being like 0.
pub mod Identity
use cheirizo.Prelude.{
  ℕ, ◌-◌, ◌+◌, Bool, true, false, not, ◌&&◌, ◌||◌, leb, ◌==◌, if◌then◌else◌, Option, none, some,
  List, [], ◌∷◌, Text, text_eq,
}

pub record Kernel : Type 0 where
  pub kill_ok : ℕ → Bool
  pub group_kill_ok : ℕ → Bool
  pub run_state : ℕ → Option ℕ
  pub boot_id : Option Text
  pub status_uids : ℕ → Option (ℕ × ℕ)
  pub group_of : ℕ → Option ℕ
  pub ticks_of : ℕ → Option ℕ
  pub started_at_ms : ℕ → Option ℕ

-- A zombie, in state `Z`, is not alive.
unfoldable pub process_alive : Kernel → ℕ → Bool
process_alive k pid =
    if pid == 0 || not (k.kill_ok pid)
    then false
    else elim (k.run_state pid) [ none ↦ false | some state ↦ not (state == 90) ]

unfoldable pub process_group_alive : Kernel → ℕ → Bool
process_group_alive k pid = not (pid == 0) && k.group_kill_ok pid

pub data MatchPurpose : Type 0 where
  status signal : MatchPurpose

abbrev pub is_signal : MatchPurpose → Bool
is_signal status = false
is_signal signal = true

pub record ProcessSignature : Type 0 where
  pub pid : ℕ
  pub command : List Text
  pub started_at : ℕ
  pub start_ticks : Option ℕ
  pub boot_id : Option Text
  pub uid : Option ℕ
  pub pgid : Option ℕ

abbrev pub is_some {ℓ} : {A : Type ℓ} → Option A → Bool
is_some none = false
is_some (some a) = true

abbrev pub is_empty {ℓ} : {A : Type ℓ} → List A → Bool
is_empty [] = true
is_empty (x ∷ xs) = false

unfoldable pub is_fully_hardened : ProcessSignature → Bool
is_fully_hardened s = is_some s.start_ticks && is_some s.boot_id && is_some s.uid && is_some s.pgid

abbrev pub is_number : Option ℕ → ℕ → Bool
is_number none n = false
is_number (some m) n = m == n

abbrev pub is_text : Option Text → Text → Bool
is_text none t = false
is_text (some s) t = text_eq s t

-- The checks of the fields; a field that was not recorded is not checked.
abbrev pub boot_matches : Kernel → ProcessSignature → Bool
boot_matches k s = elim s.boot_id [ none ↦ true | some expected ↦ is_text k.boot_id expected ]

abbrev pub uid_matches : Kernel → ProcessSignature → Bool
uid_matches k s = elim s.uid [
  | none ↦ true
  | some expected ↦ elim (k.status_uids s.pid) [
    | none ↦ false
    | some (real_uid, effective_uid) ↦ real_uid == expected || effective_uid == expected
  ]
]

abbrev pub pgid_matches : Kernel → ProcessSignature → Bool
pgid_matches k s = elim s.pgid [
  | none ↦ true
  | some expected ↦ is_number (k.group_of s.pid) expected
]

abbrev pub start_matches : Kernel → ProcessSignature → Bool
start_matches k s = elim s.start_ticks [
  | some expected ↦ is_number (k.ticks_of s.pid) expected
  | none ↦ elim (k.started_at_ms s.pid) [
    | none ↦ false
    | some actual ↦ leb ((actual - s.started_at) + (s.started_at - actual)) 5000
  ]
]

unfoldable pub process_matches : Kernel → ProcessSignature → MatchPurpose → Bool
process_matches k s purpose =
    if not (process_alive k s.pid) || is_empty s.command
    then false
    else if is_signal purpose && not (is_fully_hardened s)
    then false
    else if not (boot_matches k s)
    then false
    else if not (uid_matches k s)
    then false
    else if not (pgid_matches k s)
    then false
    else start_matches k s

pub record CapturedIdentity : Type 0 where
  pub start_ticks : Option ℕ
  pub boot_id : Option Text
  pub uid : Option ℕ
  pub pgid : Option ℕ

unfoldable pub capture_identity : Kernel → ℕ → CapturedIdentity
capture_identity k pid = record {
  start_ticks = k.ticks_of pid;
  boot_id = k.boot_id;
  uid = elim (k.status_uids pid) [ none ↦ none | some (real_uid, effective_uid) ↦ some real_uid ];
  pgid = k.group_of pid;
}
