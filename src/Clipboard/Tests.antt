-- ===== src/Clipboard/Tests.antt =====
-- Runs of the clipboard: loop detection, ownership and chunked transfers.
use cheirizo.Prelude.{ℕ, ◌+◌, true, none, some, List, [], ◌∷◌, ◌≡◌, inr, refl, arith}
use cheirizo.Clipboard.LoopDetector.{
  LoopDetector, ClipboardFormat, ClipboardOperation, rdp, local, default_config, record_formats,
  record_mime_types, record_content, check_hash_collision, would_cause_content_loop, hash_formats,
  hash_mime_types, would_cause_loop, scan,
}
use cheirizo.Clipboard.LoopDetector.History.{IsTracked, record-IsTracked}
use cheirizo.Clipboard.LoopDetector.Collision.{recorded_collides}
use cheirizo.Clipboard.Sync.{SyncManager, idle, handle_rdp_formats, check_content}
use cheirizo.Clipboard.Transfer.{
  TransferEngine, TransferProgress, ok, cancelled, prepare_send, start_receive, finalize_receive,
  chunks, chunks_from, finalize_completed, completed,
}
use cheirizo.Clipboard.Transfer.RoundTrip.{receive_all, payloads, transfer_round_trip}

-- A digest for the runs.
abbrev sum : List ℕ → ℕ
sum [] = 0
sum (b ∷ bytes) = b + sum bytes

abbrev quiet : LoopDetector
quiet = record {
  config = default_config;
  format_history = [];
  content_history = [];
  last_sync_rdp = none;
  last_sync_local = none;
}

abbrev text : ClipboardFormat
text = record { id = 13; name = none }

abbrev manager : SyncManager
manager = record { state = idle; detector = quiet }

quiet-IsTracked : IsTracked 0 quiet
quiet-IsTracked = record {
  formats_ordered = tt;
  contents_ordered = tt;
  formats_bounded = omega arith;
  contents_bounded = omega arith;
}

record-IsTracked_example :
    ((formats : List ClipboardFormat) → IsTracked 9 (record_formats sum quiet formats rdp 9))
    × ((mime_types : List (List ℕ)) → IsTracked 9 (record_mime_types sum quiet mime_types rdp 9))
    × ((bytes : List ℕ) → IsTracked 9 (record_content sum quiet bytes rdp 9))
record-IsTracked_example = record-IsTracked sum quiet 0 9 rdp (omega arith) quiet-IsTracked

abbrev copied : ClipboardOperation
copied = record { hash = 5; source = local; timestamp = 100 }

recorded_collides_example :
    (let f = record_formats sum quiet (text ∷ []) rdp 10 in
      check_hash_collision f f.format_history (hash_formats sum (text ∷ [])) local 200 ≡ true)
    × (let m = record_mime_types sum quiet ((1 ∷ []) ∷ []) rdp 10 in
        check_hash_collision m m.format_history (hash_mime_types sum ((1 ∷ []) ∷ [])) local 200
        ≡ true)
    × (true ≡ true
        → would_cause_content_loop sum
            (record_content sum quiet (7 ∷ 8 ∷ []) rdp 10)
            (7 ∷ 8 ∷ [])
            local
            200
          ≡ true)
recorded_collides_example =
    recorded_collides sum quiet 10 200 rdp (text ∷ []) ((1 ∷ []) ∷ []) (7 ∷ 8 ∷ []) (omega arith)
      (omega arith)

content_taken :
    check_content sum manager (7 ∷ 8 ∷ []) true 10
    ≡ ((check_content sum manager (7 ∷ 8 ∷ []) true 10).0, true)
unfolding check_content would_cause_content_loop check_hash_collision scan
content_taken = refl

formats_taken :
    handle_rdp_formats sum manager (text ∷ []) 10
    ≡ ((handle_rdp_formats sum manager (text ∷ []) 10).0, true)
unfolding handle_rdp_formats would_cause_loop check_hash_collision scan
formats_taken = refl

abbrev no_estimate : ℕ → ℕ → ℕ → ℕ
no_estimate elapsed done left = 0

-- Chunks of two bytes, up to a hundred bytes, within a second.
abbrev engine : TransferEngine
engine = record {
  config = record { chunk_size = 2; max_size = 100; timeout_ms = 1000; verify_integrity = true };
  progress = none;
  received_chunks = [];
  expected_hash = none;
  started_at = none;
}

abbrev three : List ℕ
three = 1 ∷ 2 ∷ 3 ∷ []

abbrev sent_three : List (List ℕ × ℕ)
sent_three = (1 ∷ 2 ∷ [], 10) ∷ (3 ∷ [], 20) ∷ []

cut_three : payloads sent_three ≡ chunks 2 three
unfolding chunks chunks_from
cut_three = refl

transfer_round_trip_example :
    let receiving = receive_all no_estimate (start_receive engine 3 (some 6) 5).0 sent_three in
    let finished = finalize_receive sum receiving.0 in
    ((prepare_send engine three 4).1 ≡ ok (payloads sent_three))
    × ((start_receive engine 3 (some 6) 5).1 ≡ ok tt)
    × (receiving.1 ≡ ok tt)
    × (finished.1 ≡ ok three)
    × (finished.0.progress ≡ none)
transfer_round_trip_example =
    transfer_round_trip no_estimate sum three (some 6) (inr refl) engine engine sent_three 4 5
      (omega arith) (omega arith) (omega arith) (omega arith) cut_three
      (omega arith, (omega arith, tt))

abbrev half_done : TransferProgress
half_done = record {
  total_bytes = 3;
  transferred_bytes = 2;
  state = cancelled;
  started_at = some 5;
  eta_ms = none;
}

abbrev stopped : TransferEngine
stopped = record engine { progress = some half_done; started_at = some 5 }

abbrev whole : TransferEngine
whole = record engine {
  progress = some (record half_done { transferred_bytes = 3; state = completed });
  received_chunks = (1 ∷ 2 ∷ []) ∷ (3 ∷ []) ∷ [];
  expected_hash = some 6;
  started_at = some 5;
}

whole-three : finalize_receive sum whole ≡ (engine, ok three)
unfolding finalize_receive finalize_completed
whole-three = refl
