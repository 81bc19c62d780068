-- ===== src/Clipboard/Transfer/Errors.antt =====
-- The error paths of a transfer: integrity, cancelled and failed transfers, and no bytes at all.
use cheirizo.Prelude.{
  ◌⊎◌, inl, inr, ℕ, true, false, Option, none, some, List, [], ◌∷◌, ◌++◌, Bool-cases, Option-cases,
  ◌≡◌, refl, arith,
}
use cheirizo.Clipboard.Transfer.{
  TransferState, TransferEngine, TransferProgress, Result, ok, err, in_progress, completed, pending,
  cancelled, failed, chunks_from, chunks, prepare_send, start_receive, receive_chunk,
  finalize_receive, finalize_completed, concat, is_active, is_completed, timed_out, with_state,
  map_progress, no_active_transfer, with_config, transfer_timeout, transfer_not_active,
  transfer_not_completed,
}

-- The transfer was cancelled or has timed out.
abbrev pub IsOver : TransferState → Type 0
IsOver cancelled = Unit
IsOver failed = Unit
IsOver pending = ⊥
IsOver in_progress = ⊥
IsOver completed = ⊥

abbrev pub IsStopped : TransferEngine → Type 0
IsStopped e = elim e.progress [ none ↦ ⊥ | some p ↦ IsOver p.state ]

abbrev pub IsErr {ℓ} : {A : Type ℓ} → Result A → Type 0
IsErr (ok x) = ⊥
IsErr (err x) = Unit

IsOver-inactive : (s : TransferState) → IsOver s → is_active s ≡ false
IsOver-inactive pending h = absurd h
IsOver-inactive in_progress h = absurd h
IsOver-inactive completed h = absurd h
IsOver-inactive cancelled h = refl
IsOver-inactive failed h = refl

IsOver-incomplete : (s : TransferState) → IsOver s → is_completed s ≡ false
IsOver-incomplete pending h = absurd h
IsOver-incomplete in_progress h = absurd h
IsOver-incomplete completed h = absurd h
IsOver-incomplete cancelled h = refl
IsOver-incomplete failed h = refl

module _ (eta : ℕ → ℕ → ℕ → ℕ) (sha256 : List ℕ → ℕ) where
  abbrev pub StaysStopped {ℓ} : {A : Type ℓ} → TransferEngine → TransferEngine × Result A → Type 0
  StaysStopped e r = IsErr r.1 × IsStopped r.0 × (r.0.received_chunks ≡ e.received_chunks)

  stopped_chunk :
      (e : TransferEngine) (p : TransferProgress) (chunk : List ℕ) (now : ℕ)
      → e.progress ≡ some p
      → IsOver p.state
      → StaysStopped e (receive_chunk eta e chunk now)
  unfolding receive_chunk
  stopped_chunk e p chunk now h k =
      let inactive = IsOver-inactive p.state k in
      elim (Bool-cases (timed_out e now)) [
        | inl late ↦ (rw late tt, rw (late, h) tt, rw (late, h) refl)
        | inr on_time ↦ (
          rw (on_time, h, inactive) tt,
          rw (on_time, h, inactive) (rw h k),
          rw (on_time, h, inactive) refl,
        )
      ]

  stopped_finalize :
      (e : TransferEngine) (p : TransferProgress)
      → e.progress ≡ some p
      → IsOver p.state
      → StaysStopped e (finalize_receive sha256 e)
  unfolding finalize_receive
  stopped_finalize e p h k =
      let incomplete = IsOver-incomplete p.state k in
      (rw (h, incomplete) tt, rw (h, incomplete) k, rw (h, incomplete) refl)

  -- Once a transfer was cancelled or has timed out, every later chunk and every attempt to
  -- finalise is refused, the transfer stays stopped and nothing is added to what it received.
  pub stopped_refuses :
      (e : TransferEngine) (p : TransferProgress) (chunk : List ℕ) (now : ℕ)
      → e.progress ≡ some p
      → IsOver p.state
      → StaysStopped e (receive_chunk eta e chunk now) × StaysStopped e (finalize_receive sha256 e)
  stopped_refuses e p chunk now h k = (stopped_chunk e p chunk now h k, stopped_finalize e p h k)

  -- A chunk is refused for one of three reasons, and only a late one changes the engine: it marks
  -- the transfer as failed. A chunk that is taken is appended to the others.
  pub receive_chunk_outcomes :
      (e e' : TransferEngine) (chunk : List ℕ) (now : ℕ) (r : Result (Unit {0}))
      → receive_chunk eta e chunk now ≡ (e', r)
      → ((r ≡ ok tt) × (e'.received_chunks ≡ e.received_chunks ++ chunk ∷ []))
        ⊎ ((r ≡ err (transfer_timeout e.config.timeout_ms))
            × (e' ≡ map_progress (with_state failed) e))
        ⊎ ((r ≡ err no_active_transfer) × (e' ≡ e))
        ⊎ ((r ≡ err transfer_not_active) × (e' ≡ e))
  unfolding receive_chunk
  receive_chunk_outcomes e e' chunk now r h = ground arith

  is_completed_only : (s : TransferState) → is_completed s ≡ true → s ≡ completed
  is_completed_only s h = ground arith

  finalized_completed :
      (e e' : TransferEngine) (bytes : List ℕ)
      → finalize_receive sha256 e ≡ (e', ok bytes)
      → (p : TransferProgress) × (e.progress ≡ some p) × (p.state ≡ completed)
  unfolding finalize_receive
  finalized_completed e e' bytes h = elim (Option-cases e.progress) [
    | inl absent ↦ absurd (ground arith)
    | inr (p, there) ↦ elim (Bool-cases (is_completed p.state)) [
      | inl done ↦ (p, there, is_completed_only p.state done)
      | inr running ↦ absurd (ground arith)
    ]
  ]

  finalized_by_completed :
      (e e' : TransferEngine) (bytes : List ℕ)
      → finalize_receive sha256 e ≡ (e', ok bytes)
      → finalize_completed sha256 e ≡ (e', ok bytes)
  unfolding finalize_receive
  finalized_by_completed e e' bytes h = ground arith

  finalize_completed_sound :
      (e e' : TransferEngine) (bytes : List ℕ)
      → finalize_completed sha256 e ≡ (e', ok bytes)
      → (bytes ≡ concat e.received_chunks)
        × ((expected : ℕ)
            → e.config.verify_integrity ≡ true
            → e.expected_hash ≡ some expected
            → sha256 bytes ≡ expected)
        × (e' ≡ with_config e.config)
  unfolding finalize_completed
  finalize_completed_sound e e' bytes h =
      (ground arith, λ expected checked announced. ground arith, unfold with_config in ground arith)

  -- What `finalize_receive` hands out is all that was received of a completed transfer; where
  -- integrity is checked and a hash was announced, its hash is that one. The engine is then idle.
  pub finalize_receive_sound :
      (e e' : TransferEngine) (bytes : List ℕ)
      → finalize_receive sha256 e ≡ (e', ok bytes)
      → (bytes ≡ concat e.received_chunks)
        × ((p : TransferProgress) × (e.progress ≡ some p) × (p.state ≡ completed))
        × ((expected : ℕ)
            → e.config.verify_integrity ≡ true
            → e.expected_hash ≡ some expected
            → sha256 bytes ≡ expected)
        × (e' ≡ with_config e.config)
  finalize_receive_sound e e' bytes h =
      let (all_bytes, genuine, idle) =
        finalize_completed_sound e e' bytes (finalized_by_completed e e' bytes h) in
      (all_bytes, finalized_completed e e' bytes h, genuine, idle)

  -- Data of no bytes is accepted by both sides and sent as no chunk at all, and the receiver's
  -- transfer of it is never complete: finalising it is an error.
  pub empty_never_completes :
      (sender receiver : TransferEngine) (expected : Option ℕ) (now : ℕ)
      → let opened = start_receive receiver 0 expected now in
        ((prepare_send sender [] now).1 ≡ ok [])
        × (opened.1 ≡ ok tt)
        × (finalize_receive sha256 opened.0 ≡ (opened.0, err (transfer_not_completed in_progress)))
  unfolding finalize_receive
  empty_never_completes sender receiver expected now = (
    unfold prepare_send in unfold chunks in unfold chunks_from in ground arith,
    unfold start_receive in ground arith,
    unfold start_receive in ground arith,
  )
