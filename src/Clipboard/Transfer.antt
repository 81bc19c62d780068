-- ===== src/Clipboard/Transfer.antt =====
-- src/rdp/channels/clipboard/core/transfer.rs. Instants are milliseconds. Of the progress, the
-- estimate that the code makes in floats is a parameter, a function of the elapsed time and of the
-- bytes done and left; its `u64` subtraction wraps in a release build.
pub mod RoundTrip
pub mod Errors
use cheirizo.Prelude.{
  ℕ, zero, suc, ◌+◌, ◌-◌, ◌*◌, ◌%◌, Bool, true, false, not, ◌&&◌, ◌||◌, ltb, leb, ◌==◌,
  if◌then◌else◌, Option, none, some, List, [], ◌∷◌, ◌++◌, length, take, drop,
}

pub data TransferState : Type 0 where
  pending in_progress completed cancelled failed : TransferState

abbrev pub is_active : TransferState → Bool
is_active pending = true
is_active in_progress = true
is_active completed = false
is_active cancelled = false
is_active failed = false

abbrev pub is_completed : TransferState → Bool
is_completed completed = true
is_completed pending = false
is_completed in_progress = false
is_completed cancelled = false
is_completed failed = false

pub record TransferProgress : Type 0 where
  pub total_bytes : ℕ
  pub transferred_bytes : ℕ
  pub state : TransferState
  pub started_at : Option ℕ
  pub eta_ms : Option ℕ

abbrev pub new_progress : ℕ → TransferProgress
new_progress total = record {
  total_bytes = total;
  transferred_bytes = 0;
  state = pending;
  started_at = none;
  eta_ms = none;
}

pub record TransferConfig : Type 0 where
  pub chunk_size : ℕ
  pub max_size : ℕ
  pub timeout_ms : ℕ
  pub verify_integrity : Bool

pub data ClipboardError : Type 0 where
  data_size_exceeded : ℕ → ℕ → ClipboardError
  transfer_timeout : ℕ → ClipboardError
  no_active_transfer transfer_not_active hash_mismatch : ClipboardError
  transfer_not_completed : TransferState → ClipboardError

pub data Result {ℓ} (A : Type ℓ) : Type ℓ where
  ok : A → Result A
  err : ClipboardError → Result A

pub record TransferEngine : Type 0 where
  pub config : TransferConfig
  pub progress : Option TransferProgress
  pub received_chunks : List (List ℕ)
  pub expected_hash : Option ℕ
  pub started_at : Option ℕ

unfoldable pub with_config : TransferConfig → TransferEngine
with_config config = record {
  config = config;
  progress = none;
  received_chunks = [];
  expected_hash = none;
  started_at = none;
}

-- `slice::chunks`, on fuel: a chunk size of 0 is a panic of the source, and gives no chunk here.
unfoldable pub chunks_from : ℕ → ℕ → List ℕ → List (List ℕ)
chunks_from zero size bytes = []
chunks_from (suc fuel) size [] = []
chunks_from (suc fuel) size (b ∷ bytes) =
    take size (b ∷ bytes) ∷ chunks_from fuel size (drop size (b ∷ bytes))

-- Every chunk takes a byte at least, so as many rounds as there are bytes are enough.
unfoldable pub chunks : ℕ → List ℕ → List (List ℕ)
unfolding chunks_from
chunks size bytes = chunks_from (length bytes) size bytes

abbrev pub started : ℕ → ℕ → Option TransferProgress
started total now =
    some (record (new_progress total) { state = in_progress; started_at = some now })

unfoldable pub prepare_send : TransferEngine → List ℕ → ℕ → TransferEngine × Result (List (List ℕ))
unfolding chunks
prepare_send e bytes now =
    if ltb e.config.max_size (length bytes)
    then (e, err (data_size_exceeded (length bytes) e.config.max_size))
    else (
      record e { started_at = some now; progress = started (length bytes) now },
      ok (chunks e.config.chunk_size bytes),
    )

unfoldable pub start_receive :
    TransferEngine → ℕ → Option ℕ → ℕ → TransferEngine × Result (Unit {0})
start_receive e total_size expected_hash now =
    if ltb e.config.max_size total_size
    then (e, err (data_size_exceeded total_size e.config.max_size))
    else (
      record e {
        received_chunks = [];
        expected_hash = expected_hash;
        started_at = some now;
        progress = started total_size now;
      },
      ok tt,
    )

abbrev pub with_state : TransferState → TransferProgress → TransferProgress
with_state state p = record p { state = state }

abbrev pub map_progress : (TransferProgress → TransferProgress) → TransferEngine → TransferEngine
map_progress f e = elim e.progress [ none ↦ e | some p ↦ record e { progress = some (f p) } ]

abbrev pub timed_out : TransferEngine → ℕ → Bool
timed_out e now = elim e.started_at [ none ↦ false | some at ↦ ltb e.config.timeout_ms (now - at) ]

-- The bytes left, as a wrapping `u64`.
abbrev pub wrapping_sub64 : ℕ → ℕ → ℕ
wrapping_sub64 a b = (a + 18446744073709551616 - b) % 18446744073709551616

module _ (eta : ℕ → ℕ → ℕ → ℕ) where
  unfoldable pub updated_eta : TransferProgress → ℕ → Option ℕ
  updated_eta p now = elim p.started_at [
    | none ↦ p.eta_ms
    | some at ↦
        if ltb 0 (now - at) && ltb 0 p.transferred_bytes
        then some
            (eta (now - at) p.transferred_bytes (wrapping_sub64 p.total_bytes p.transferred_bytes))
        else p.eta_ms
  ]

  -- The progress after a chunk of the given length.
  unfoldable pub advance : TransferProgress → ℕ → ℕ → TransferProgress
  unfolding updated_eta
  advance p len now =
      let q = record p { transferred_bytes = p.transferred_bytes + len } in
      let r = record q { eta_ms = updated_eta q now } in
      if leb r.total_bytes r.transferred_bytes then record r { state = completed } else r

  unfoldable pub receive_active :
      TransferEngine → TransferProgress → List ℕ → ℕ → TransferEngine × Result (Unit {0})
  unfolding advance
  receive_active e p chunk now = if not (is_active p.state) then (e, err transfer_not_active) else (
    record e {
      progress = some (advance p (length chunk) now);
      received_chunks = e.received_chunks ++ chunk ∷ [];
    },
    ok tt,
  )

  unfoldable pub receive_chunk : TransferEngine → List ℕ → ℕ → TransferEngine × Result (Unit {0})
  unfolding receive_active
  receive_chunk e chunk now =
      if timed_out e now
      then (map_progress (with_state failed) e, err (transfer_timeout e.config.timeout_ms))
      else elim e.progress [
        | none ↦ (e, err no_active_transfer)
        | some p ↦ receive_active e p chunk now
      ]

abbrev pub concat : List (List ℕ) → List ℕ
concat [] = []
concat (c ∷ cs) = c ++ concat cs

module _ (sha256 : List ℕ → ℕ) where
  abbrev pub hash_matches : TransferEngine → List ℕ → Bool
  hash_matches e bytes = elim e.expected_hash [
    | none ↦ true
    | some expected ↦ sha256 bytes == expected
  ]

  unfoldable pub finalize_completed : TransferEngine → TransferEngine × Result (List ℕ)
  finalize_completed e =
      if e.config.verify_integrity && not (hash_matches e (concat e.received_chunks))
      then (e, err hash_mismatch)
      else (
        record e { received_chunks = []; progress = none; expected_hash = none; started_at = none },
        ok (concat e.received_chunks),
      )

  unfoldable pub finalize_receive : TransferEngine → TransferEngine × Result (List ℕ)
  unfolding finalize_completed
  finalize_receive e = elim e.progress [
    | none ↦ (e, err no_active_transfer)
    | some p ↦
        if not (is_completed p.state)
        then (e, err (transfer_not_completed p.state))
        else finalize_completed e
  ]

unfoldable pub cancel : TransferEngine → TransferEngine
cancel e = record (map_progress (with_state cancelled) e) { received_chunks = [] }

unfoldable pub engine_is_active : TransferEngine → Bool
engine_is_active e = elim e.progress [ none ↦ false | some p ↦ is_active p.state ]
