-- ===== src/Clipboard/LoopDetector/Collision.antt =====
-- What `check_hash_collision` finds.
use mathlib.Core.List.{reverse, reverse-cons, reverse-append}
use cheirizo.Prelude.{
  ℕ, ◌≤◌, ◌<◌, Bool, true, ◌&&◌, ◌||◌, leb, ◌==◌, List, [], ◌∷◌, ◌++◌, any, ◌≡◌, refl, arith, All,
}
use cheirizo.Clipboard.LoopDetector.{
  LoopDetector, ClipboardOperation, ClipboardSource, rdp, local, opposite, source_eq,
  ClipboardFormat, operation, age, scan, check_hash_collision, record_formats, record_mime_types,
  record_content, would_cause_content_loop, hash_formats, hash_mime_types,
}
use cheirizo.Clipboard.LoopDetector.History.{Ordered, cleaned-append}

-- A recent operation of the other source with the same hash.
abbrev pub collides : ℕ → ℕ → ℕ → ClipboardSource → ClipboardOperation → Bool
collides window now hash current_source op =
    leb (age now op.timestamp) window
    && (source_eq op.source (opposite current_source) && op.hash == hash)

module _ (window now hash : ℕ) (current : ClipboardSource) where
  scan-append :
      (ops : List ClipboardOperation) (op : ClipboardOperation)
      → All (λ o. op.timestamp ≤ o.timestamp) ops
      → scan window now hash current (ops ++ op ∷ [])
        ≡ (scan window now hash current ops || collides window now hash current op)
  unfolding scan
  scan-append [] op h = ground arith
  scan-append (o ∷ ops) op h = ground (arith, scan-append ops op h.1)

  All-append :
      (t : ℕ) (ops : List ClipboardOperation) (op : ClipboardOperation)
      → All (λ o. t ≤ o.timestamp) ops
      → t ≤ op.timestamp
      → All (λ o. t ≤ o.timestamp) (ops ++ op ∷ [])
  All-append t [] op h k = ground arith
  All-append t (o ∷ ops) op h k = (h.0, All-append t ops op h.1 k)

  All-reverse :
      (t : ℕ) (ops : List ClipboardOperation)
      → All (λ o. t ≤ o.timestamp) ops
      → All (λ o. t ≤ o.timestamp) (reverse ops)
  All-reverse t [] h = tt
  All-reverse t (o ∷ ops) h =
      rw (reverse-cons o ops) (All-append t (reverse ops) o (All-reverse t ops h.1) h.0)

  scan-reverse :
      (upto : ℕ) (ops : List ClipboardOperation)
      → Ordered upto ops
      → scan window now hash current (reverse ops) ≡ any (collides window now hash current) ops
  scan-reverse upto [] h = unfold scan in refl
  scan-reverse upto (o ∷ ops) h =
      rw (reverse-cons o ops, scan-append (reverse ops) o (All-reverse o.timestamp ops h.1))
        (ground (arith, scan-reverse upto ops h.2))

-- Over a history in order, the check that stops at the first old operation finds a collision
-- exactly when some operation in the whole history is recent, of the other source and of the same
-- hash.
pub check_hash_collision-any :
    (d : LoopDetector) (history : List ClipboardOperation) (hash upto now : ℕ)
    (current : ClipboardSource)
    → Ordered upto history
    → check_hash_collision d history hash current now
      ≡ any (collides d.config.window_ms now hash current) history
unfolding check_hash_collision
check_hash_collision-any d history hash upto now current h =
    scan-reverse d.config.window_ms now hash current upto history h

source_eq_self : (s : ClipboardSource) → source_eq s (opposite (opposite s)) ≡ true
source_eq_self rdp = refl
source_eq_self local = refl

newest_collides :
    (window t later hash : ℕ) (s : ClipboardSource) (ops : List ClipboardOperation)
    → age later t ≤ window
    → scan window later hash (opposite s) (reverse (ops ++ operation hash s t ∷ [])) ≡ true
unfolding scan
newest_collides window t later hash s ops young =
    rw (reverse-append ops (operation hash s t ∷ [])) (ground (arith, source_eq_self s))

module _ (sha256 : List ℕ → ℕ) (d : LoopDetector) (t later : ℕ) where
  -- What one source records, the check for the other source finds within the window, whatever is
  -- in the histories: formats, MIME types, and content where it is hashed.
  pub recorded_collides :
      (s : ClipboardSource) (formats : List ClipboardFormat) (mime_types : List (List ℕ))
      (bytes : List ℕ)
      → 0 < d.config.max_history
      → age later t ≤ d.config.window_ms
      → (let f = record_formats sha256 d formats s t in
          check_hash_collision f f.format_history (hash_formats sha256 formats) (opposite s) later
          ≡ true)
        × (let m = record_mime_types sha256 d mime_types s t in
            check_hash_collision m m.format_history
              (hash_mime_types sha256 mime_types)
              (opposite s)
              later
            ≡ true)
        × (d.config.enable_content_hashing ≡ true
            → would_cause_content_loop sha256
                (record_content sha256 d bytes s t)
                bytes
                (opposite s)
                later
              ≡ true)
  unfolding record_formats record_mime_types record_content check_hash_collision
      would_cause_content_loop
  recorded_collides s formats mime_types bytes pos young =
      let c = d.config in
      let (fs, ef) =
        cleaned-append c t d.format_history (operation (hash_formats sha256 formats) s t) pos
          refl in
      let (ms, em) =
        cleaned-append c t d.format_history (operation (hash_mime_types sha256 mime_types) s t) pos
          refl in
      let (bs, eb) = cleaned-append c t d.content_history (operation (sha256 bytes) s t) pos refl in
      (
        rw ef (newest_collides c.window_ms t later (hash_formats sha256 formats) s fs young),
        rw em (newest_collides c.window_ms t later (hash_mime_types sha256 mime_types) s ms young),
        λ on. rw (on, eb) (newest_collides c.window_ms t later (sha256 bytes) s bs young),
      )
