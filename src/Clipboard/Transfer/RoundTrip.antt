-- ===== src/Clipboard/Transfer/RoundTrip.antt =====
-- What is sent in chunks is received whole.
use cheirizo.Prelude.{
  ◌⊎◌, ℕ, zero, suc, ◌+◌, ◌-◌, ◌≤◌, ◌<◌, Option, none, some, List, [], ◌∷◌, ◌++◌, length,
  length-append, take, drop, ◌≡◌, refl, ap, ◌∙◌, arith, All,
}
use mathlib.Core.List.{append-nil, append_assoc}
use cheirizo.Clipboard.Transfer.{
  new_progress, TransferEngine, TransferProgress, Result, ok, err, in_progress, completed,
  chunks_from, chunks, prepare_send, start_receive, receive_chunk, finalize_receive, concat,
  advance,
}

-- A run of `receive_chunk`, chunk by chunk with the time of each, up to the first error.
unfoldable pub receive_all :
    (ℕ → ℕ → ℕ → ℕ) → TransferEngine → List (List ℕ × ℕ) → TransferEngine × Result (Unit {0})
receive_all eta e [] = (e, ok tt)
receive_all eta e ((c, now) ∷ rest) =
    let more = receive_all eta (receive_chunk eta e c now).0 rest in
    elim (receive_chunk eta e c now).1 [
      | ok u ↦ more
      | err x ↦ ((receive_chunk eta e c now).0, err x)
    ]

take-append-drop : (n : ℕ) (xs : List ℕ) → take n xs ++ drop n xs ≡ xs
take-append-drop zero xs = refl
take-append-drop (suc n) [] = refl
take-append-drop (suc n) (x ∷ xs) = rw (take-append-drop n xs)

length-drop_le : (n : ℕ) (xs : List ℕ) (x : ℕ) → 0 < n → length (drop n (x ∷ xs)) ≤ length xs
length-drop_le zero xs x h = absurd (omega arith)
length-drop_le (suc zero) xs x h = omega arith
length-drop_le (suc (suc n)) [] x h = omega arith
length-drop_le (suc (suc n)) (y ∷ xs) x h = omega (arith, length-drop_le (suc n) xs y)

-- The chunks, put together, are the bytes.
pub concat-chunks_from :
    (fuel size : ℕ) (bytes : List ℕ)
    → 0 < size
    → length bytes ≤ fuel
    → concat (chunks_from fuel size bytes) ≡ bytes
unfolding chunks_from
concat-chunks_from zero size [] pos fits = refl
concat-chunks_from zero size (b ∷ bytes) pos fits = absurd (omega arith)
concat-chunks_from (suc fuel) size [] pos fits = refl
concat-chunks_from (suc fuel) size (b ∷ bytes) pos fits =
    rw
      (concat-chunks_from fuel size (drop size (b ∷ bytes)) pos
        (omega (arith, length-drop_le size bytes b)))
      (take-append-drop size (b ∷ bytes))

pub chunks_from-nonempty :
    (fuel size : ℕ) (bytes : List ℕ)
    → 0 < size
    → All (λ c. 0 < length c) (chunks_from fuel size bytes)
unfolding chunks_from
chunks_from-nonempty zero size bytes pos = tt
chunks_from-nonempty (suc fuel) size [] pos = tt
chunks_from-nonempty (suc fuel) zero (b ∷ bytes) pos = absurd (omega arith)
chunks_from-nonempty (suc fuel) (suc size) (b ∷ bytes) pos =
    (omega arith, chunks_from-nonempty fuel (suc size) (drop size bytes) pos)

abbrev pub payloads : List (List ℕ × ℕ) → List (List ℕ)
payloads [] = []
payloads ((c, now) ∷ rest) = c ∷ payloads rest

-- No chunk is empty, and none comes later than the timeout after the start.
abbrev pub Timely : ℕ → ℕ → List (List ℕ × ℕ) → Type 0
Timely start timeout = All (λ (p : List ℕ × ℕ). (0 < length p.0) × (p.1 - start ≤ timeout))

module _ (eta : ℕ → ℕ → ℕ → ℕ) (start : ℕ) where
  -- An engine in the middle of a transfer, with so many bytes to go.
  record Receiving (e : TransferEngine) (p : TransferProgress) (left : ℕ) : Type 0 where
    running : e.started_at ≡ some start
    tracked : e.progress ≡ some p
    active : p.state ≡ in_progress
    room : p.transferred_bytes + left ≡ p.total_bytes

  abbrev after_chunk : TransferEngine → TransferProgress → List ℕ → ℕ → TransferEngine
  after_chunk e p c now = record e {
    progress = some (advance eta p (length c) now);
    received_chunks = e.received_chunks ++ c ∷ [];
  }

  receive_chunk_step :
      (e : TransferEngine) (p : TransferProgress) (c : List ℕ) (now left : ℕ)
      → Receiving e p left
      → now - start ≤ e.config.timeout_ms
      → receive_chunk eta e c now ≡ (after_chunk e p c now, ok tt)
  unfolding receive_chunk
  receive_chunk_step e p c now left r timely = ground arith

  advance_more :
      (e : TransferEngine) (p : TransferProgress) (c : List ℕ) (now left : ℕ)
      → 0 < left
      → Receiving e p (length c + left)
      → Receiving (after_chunk e p c now) (advance eta p (length c) now) left
  unfolding advance
  advance_more e p c now left more r = ground arith

  advance_last :
      (e : TransferEngine) (p : TransferProgress) (c : List ℕ) (now : ℕ)
      → Receiving e p (length c)
      → (advance eta p (length c) now).state ≡ completed
  unfolding advance
  advance_last e p c now r = ground arith

  -- What a whole transfer leaves.
  record Received (e e' : TransferEngine) (cs : List (List ℕ)) : Type 0 where
    last : TransferProgress
    tracked : e'.progress ≡ some last
    finished : last.state ≡ completed
    collected : e'.received_chunks ≡ e.received_chunks ++ cs
    same_hash : e'.expected_hash ≡ e.expected_hash
    same_config : e'.config ≡ e.config

  receive_all_step :
      (e e' : TransferEngine) (c : List ℕ) (now : ℕ) (rest : List (List ℕ × ℕ))
      → receive_chunk eta e c now ≡ (e', ok tt)
      → receive_all eta e ((c, now) ∷ rest) ≡ receive_all eta e' rest
  unfolding receive_all
  receive_all_step e e' c now rest h = rw (h, receive_all) (rw h)

  Received-step :
      (e e' : TransferEngine) (p : TransferProgress) (c : List ℕ) (now : ℕ) (cs : List (List ℕ))
      → Received (after_chunk e p c now) e' cs
      → Received e e' (c ∷ cs)
  Received-step e e' p c now cs r = record {
    last = r.last;
    tracked = r.tracked;
    finished = r.finished;
    collected = r.collected ∙ append_assoc e.received_chunks (c ∷ []) cs;
    same_hash = r.same_hash;
    same_config = r.same_config;
  }

  receive_all_lem :
      (rest : List (List ℕ × ℕ)) (e : TransferEngine) (p : TransferProgress) (c : List ℕ) (now : ℕ)
      → Receiving e p (length (concat (c ∷ payloads rest)))
      → Timely start e.config.timeout_ms ((c, now) ∷ rest)
      → let r = receive_all eta e ((c, now) ∷ rest) in
        (r.1 ≡ ok tt) × Received e r.0 (c ∷ payloads rest)
  receive_all_lem [] e p c now r t =
      let r' : Receiving e p (length c) = rw (append-nil c) at r in
      let step = receive_chunk_step e p c now (length c) r' t.0.1 in
      rw (receive_all_step e (after_chunk e p c now) c now [] step) (
        unfold receive_all in refl,
        unfold receive_all in
            record {
              last = advance eta p (length c) now;
              tracked = refl;
              finished = advance_last e p c now r';
              collected = refl;
              same_hash = refl;
              same_config = refl;
            },
      )
  receive_all_lem ((d, later) ∷ rest) e p c now r t =
      let left = length (concat (d ∷ payloads rest)) in
      let r' : Receiving e p (length c + left) =
        rw (length-append c (concat (d ∷ payloads rest))) at r in
      let step = receive_chunk_step e p c now (length c + left) r' t.0.1 in
      let more : 0 < left = omega (arith, length-append d (concat (payloads rest)), t.1.0.0) in
      let (fine, done) =
        receive_all_lem rest (after_chunk e p c now) (advance eta p (length c) now) d later
          (advance_more e p c now left more r') t.1 in
      rw (receive_all_step e (after_chunk e p c now) c now ((d, later) ∷ rest) step) (
        fine,
        Received-step e (receive_all eta (after_chunk e p c now) ((d, later) ∷ rest)).0 p c now
            (d ∷ payloads rest) done,
      )

abbrev pub InTime : ℕ → ℕ → List (List ℕ × ℕ) → Type 0
InTime start timeout = All (λ (p : List ℕ × ℕ). p.1 - start ≤ timeout)

Timely-of :
    (start timeout : ℕ) (sent : List (List ℕ × ℕ))
    → All (λ c. 0 < length c) (payloads sent)
    → InTime start timeout sent
    → Timely start timeout sent
Timely-of start timeout [] h k = tt
Timely-of start timeout ((c, now) ∷ rest) h k = ((h.0, k.0), Timely-of start timeout rest h.1 k.1)

module _ (eta : ℕ → ℕ → ℕ → ℕ) (sha256 : List ℕ → ℕ) (bytes : List ℕ) (expected : Option ℕ)
    (honest : (expected ≡ none) ⊎ (expected ≡ some (sha256 bytes))) where
  finalize_Received :
      (start : ℕ) (e e' : TransferEngine) (cs : List (List ℕ))
      → e.received_chunks ≡ []
      → e.expected_hash ≡ expected
      → concat cs ≡ bytes
      → Received eta start e e' cs
      → ((finalize_receive sha256 e').1 ≡ ok bytes)
        × ((finalize_receive sha256 e').0.progress ≡ none)
  unfolding finalize_receive
  finalize_Received start e e' cs fresh hash whole r =
      let all_chunks : e'.received_chunks ≡ cs =
        r.collected ∙ ap (λ (xs : List (List ℕ)). xs ++ cs) fresh in
      let all_bytes : concat e'.received_chunks ≡ bytes = ap concat all_chunks ∙ whole in
      ground arith

  started_Receiving :
      (e : TransferEngine) (start : ℕ)
      → length bytes ≤ e.config.max_size
      → let r = start_receive e (length bytes) expected start in
        (r.1 ≡ ok tt)
        × (p : TransferProgress) × Receiving eta start r.0 p (length bytes)
        × (r.0.received_chunks ≡ [])
        × (r.0.expected_hash ≡ expected)
        × (r.0.config ≡ e.config)
  unfolding start_receive
  started_Receiving e start fits = (
    ground arith,
    record (new_progress (length bytes)) { state = in_progress; started_at = some start },
    ground arith,
    ground arith,
    ground arith,
    ground arith,
  )

  receive_sent :
      (start : ℕ) (e : TransferEngine) (p : TransferProgress) (sent : List (List ℕ × ℕ))
      → 0 < length bytes
      → concat (payloads sent) ≡ bytes
      → Receiving eta start e p (length bytes)
      → Timely start e.config.timeout_ms sent
      → ((receive_all eta e sent).1 ≡ ok tt)
        × Received eta start e (receive_all eta e sent).0 (payloads sent)
  receive_sent start e p [] some_bytes whole r t = absurd (omega (arith, ap length whole))
  receive_sent start e p ((c, now) ∷ rest) some_bytes whole r t =
      receive_all_lem eta start rest e p c now (rw (← whole) at r) t

  -- Data that is not empty and no larger than both sides allow: cut into chunks, received chunk by
  -- chunk within the timeout, and finalised, it comes out as it went in, with or without its hash
  -- announced, and the receiver is free for the next transfer.
  pub transfer_round_trip :
      (sender receiver : TransferEngine) (sent : List (List ℕ × ℕ)) (prepared start : ℕ)
      → 0 < length bytes
      → 0 < sender.config.chunk_size
      → length bytes ≤ sender.config.max_size
      → length bytes ≤ receiver.config.max_size
      → payloads sent ≡ chunks sender.config.chunk_size bytes
      → InTime start receiver.config.timeout_ms sent
      → let receiving =
          receive_all eta (start_receive receiver (length bytes) expected start).0 sent in
        let finished = finalize_receive sha256 receiving.0 in
        ((prepare_send sender bytes prepared).1 ≡ ok (payloads sent))
        × ((start_receive receiver (length bytes) expected start).1 ≡ ok tt)
        × (receiving.1 ≡ ok tt)
        × (finished.1 ≡ ok bytes)
        × (finished.0.progress ≡ none)
  transfer_round_trip sender receiver sent prepared start some_bytes pos fs fr cut timely =
      let size = sender.config.chunk_size in
      let whole : concat (payloads sent) ≡ bytes =
        rw cut (unfold chunks in concat-chunks_from (length bytes) size bytes pos (omega arith)) in
      let full : All (λ c. 0 < length c) (payloads sent) =
        rw cut (unfold chunks in chunks_from-nonempty (length bytes) size bytes pos) in
      let (opened, p, ready, fresh, hash, config) = started_Receiving receiver start fr in
      let r0 = (start_receive receiver (length bytes) expected start).0 in
      let in_time : InTime start r0.config.timeout_ms sent = rw config timely in
      let (fine, done) =
        receive_sent start r0 p sent some_bytes whole ready
          (Timely-of start r0.config.timeout_ms sent full in_time) in
      let (out, free) =
        finalize_Received start r0 (receive_all eta r0 sent).0 (payloads sent) fresh hash whole
          done in
      (unfold prepare_send in ground arith, opened, fine, out, free)
