-- ===== src/Clipboard/LoopDetector.antt =====
-- src/rdp/channels/clipboard/core/loop_detector.rs. Instants are milliseconds; a call that reads
-- the clock more than once reads one value. Histories stand oldest first.
pub mod Collision
pub mod History
use mathlib.Core.List.{reverse}
use cheirizo.Prelude.{
  ℕ, ◌+◌, ◌-◌, ◌*◌, ◌/◌, ◌%◌, Bool, true, false, ◌&&◌, ◌||◌, ltb, leb, ◌==◌, if◌then◌else◌, Option,
  none, some, List, [], ◌∷◌, ◌++◌, length,
}

pub record LoopDetectionConfig : Type 0 where
  pub window_ms : ℕ
  pub max_history : ℕ
  pub enable_content_hashing : Bool
  pub rate_limit_ms : Option ℕ

abbrev pub default_config : LoopDetectionConfig
default_config = record {
  window_ms = 500;
  max_history = 10;
  enable_content_hashing = true;
  rate_limit_ms = none;
}

abbrev pub with_rate_limit : ℕ → LoopDetectionConfig
with_rate_limit ms = record default_config { rate_limit_ms = some ms }

pub data ClipboardSource : Type 0 where
  rdp local : ClipboardSource

abbrev pub opposite : ClipboardSource → ClipboardSource
opposite rdp = local
opposite local = rdp

abbrev pub source_eq : ClipboardSource → ClipboardSource → Bool
source_eq rdp rdp = true
source_eq local local = true
source_eq rdp local = false
source_eq local rdp = false

pub record ClipboardOperation : Type 0 where
  pub hash : ℕ
  pub source : ClipboardSource
  pub timestamp : ℕ

-- A name and a MIME type are their bytes.
pub record ClipboardFormat : Type 0 where
  pub id : ℕ
  pub name : Option (List ℕ)

pub record LoopDetector : Type 0 where
  pub config : LoopDetectionConfig
  pub format_history : List ClipboardOperation
  pub content_history : List ClipboardOperation
  pub last_sync_rdp : Option ℕ
  pub last_sync_local : Option ℕ

unfoldable pub with_config : LoopDetectionConfig → LoopDetector
with_config config = record {
  config = config;
  format_history = [];
  content_history = [];
  last_sync_rdp = none;
  last_sync_local = none;
}

unfoldable pub clear : LoopDetector → LoopDetector
clear d = record d {
  format_history = [];
  content_history = [];
  last_sync_rdp = none;
  last_sync_local = none;
}

-- The bytes that the hashers are fed.
abbrev pub to_le_bytes : ℕ → List ℕ
to_le_bytes n = n % 256 ∷ (n / 256) % 256 ∷ (n / 65536) % 256 ∷ (n / 16777216) % 256 ∷ []

abbrev pub name_bytes : Option (List ℕ) → List ℕ
name_bytes none = []
name_bytes (some name) = name

abbrev pub format_bytes : List ClipboardFormat → List ℕ
format_bytes [] = []
format_bytes (f ∷ fs) = to_le_bytes f.id ++ (name_bytes f.name ++ format_bytes fs)

abbrev pub mime_bytes : List (List ℕ) → List ℕ
mime_bytes [] = []
mime_bytes (m ∷ ms) = m ++ 0 ∷ mime_bytes ms

-- `now.duration_since(at)`.
abbrev pub age : ℕ → ℕ → ℕ
age now at = now - at

-- The loop of `check_hash_collision`, from the newest operation to the first one that is too old.
unfoldable pub scan : ℕ → ℕ → ℕ → ClipboardSource → List ClipboardOperation → Bool
scan window now hash current_source [] = false
scan window now hash current_source (op ∷ ops) =
    let rest = scan window now hash current_source ops in
    if ltb window (age now op.timestamp)
    then false
    else if source_eq op.source (opposite current_source) && op.hash == hash
    then true
    else rest

unfoldable pub check_hash_collision :
    LoopDetector → List ClipboardOperation → ℕ → ClipboardSource → ℕ → Bool
unfolding scan
check_hash_collision d history hash current_source now =
    scan d.config.window_ms now hash current_source (reverse history)

-- The two loops of `cleanup_history` over one history.
unfoldable pub drop_old : ℕ → ℕ → List ClipboardOperation → List ClipboardOperation
drop_old window now [] = []
drop_old window now (op ∷ ops) =
    if ltb window (age now op.timestamp) then drop_old window now ops else op ∷ ops

unfoldable pub drop_excess : ℕ → List ClipboardOperation → List ClipboardOperation
drop_excess max_history [] = []
drop_excess max_history (op ∷ ops) =
    if ltb max_history (length (op ∷ ops)) then drop_excess max_history ops else op ∷ ops

abbrev pub cleaned : LoopDetectionConfig → ℕ → List ClipboardOperation → List ClipboardOperation
cleaned c now history = drop_excess c.max_history (drop_old (c.window_ms * 2) now history)

unfoldable pub cleanup_history : LoopDetector → ℕ → LoopDetector
unfolding drop_old drop_excess
cleanup_history d now = record d {
  format_history = cleaned d.config now d.format_history;
  content_history = cleaned d.config now d.content_history;
}

abbrev pub operation : ℕ → ClipboardSource → ℕ → ClipboardOperation
operation hash source now = record { hash = hash; source = source; timestamp = now }

abbrev pub last_sync : LoopDetector → ClipboardSource → Option ℕ
last_sync d rdp = d.last_sync_rdp
last_sync d local = d.last_sync_local

unfoldable pub is_rate_limited : LoopDetector → ClipboardSource → ℕ → Bool
is_rate_limited d source now = elim d.config.rate_limit_ms [
  | none ↦ false
  | some rate_limit_ms ↦ elim (last_sync d source) [
    | none ↦ false
    | some last ↦ ltb (age now last) rate_limit_ms
  ]
]

unfoldable pub record_sync : LoopDetector → ClipboardSource → ℕ → LoopDetector
record_sync d rdp now = record d { last_sync_rdp = some now }
record_sync d local now = record d { last_sync_local = some now }

module _ (sha256 : List ℕ → ℕ) where
  abbrev pub hash_formats : List ClipboardFormat → ℕ
  hash_formats formats = sha256 (format_bytes formats)

  abbrev pub hash_mime_types : List (List ℕ) → ℕ
  hash_mime_types mime_types = sha256 (mime_bytes mime_types)

  abbrev pub push_format : LoopDetector → ClipboardOperation → LoopDetector
  push_format d op = record d { format_history = d.format_history ++ op ∷ [] }

  -- The call of `record_operation` on a clone of the history has no effect.
  unfoldable pub record_formats :
      LoopDetector → List ClipboardFormat → ClipboardSource → ℕ → LoopDetector
  unfolding cleanup_history
  record_formats d formats source now =
      cleanup_history (push_format d (operation (hash_formats formats) source now)) now

  unfoldable pub record_mime_types :
      LoopDetector → List (List ℕ) → ClipboardSource → ℕ → LoopDetector
  unfolding cleanup_history
  record_mime_types d mime_types source now =
      cleanup_history (push_format d (operation (hash_mime_types mime_types) source now)) now

  unfoldable pub record_content : LoopDetector → List ℕ → ClipboardSource → ℕ → LoopDetector
  unfolding cleanup_history
  record_content d bytes source now =
      if d.config.enable_content_hashing
      then cleanup_history
          (record d {
            content_history = d.content_history ++ operation (sha256 bytes) source now ∷ [];
          })
          now
      else d

  unfoldable pub would_cause_loop : LoopDetector → List ClipboardFormat → ℕ → Bool
  unfolding check_hash_collision
  would_cause_loop d formats now =
      check_hash_collision d d.format_history (hash_formats formats) local now

  unfoldable pub would_cause_loop_mime : LoopDetector → List (List ℕ) → ℕ → Bool
  unfolding check_hash_collision
  would_cause_loop_mime d mime_types now =
      check_hash_collision d d.format_history (hash_mime_types mime_types) rdp now

  unfoldable pub would_cause_content_loop : LoopDetector → List ℕ → ClipboardSource → ℕ → Bool
  unfolding check_hash_collision
  would_cause_content_loop d bytes source now =
      if d.config.enable_content_hashing
      then check_hash_collision d d.content_history (sha256 bytes) source now
      else false

  unfoldable pub should_skip_sync : LoopDetector → List ClipboardFormat → ClipboardSource → ℕ → Bool
  unfolding is_rate_limited check_hash_collision
  should_skip_sync d formats source now =
      if is_rate_limited d source now
      then true
      else check_hash_collision d d.format_history (hash_formats formats) source now

  unfoldable pub should_skip_sync_mime : LoopDetector → List (List ℕ) → ClipboardSource → ℕ → Bool
  unfolding is_rate_limited check_hash_collision
  should_skip_sync_mime d mime_types source now =
      if is_rate_limited d source now
      then true
      else check_hash_collision d d.format_history (hash_mime_types mime_types) source now
