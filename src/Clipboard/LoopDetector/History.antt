-- ===== src/Clipboard/LoopDetector/History.antt =====
-- The histories stay bounded and in order, and keep what is newest.
use cheirizo.Prelude.{
  Bool, true, false, if◌then◌else◌, inl, inr, Bool-cases, ltb, refl, ◌<◌, ◌*◌, ℕ, ◌≤◌, List, [],
  ◌∷◌, ◌++◌, length, ◌≡◌, arith, All,
}
use cheirizo.Clipboard.LoopDetector.{
  cleaned, LoopDetector, LoopDetectionConfig, ClipboardSource, ClipboardFormat, age,
  cleanup_history, record_formats, record_mime_types, record_content, ClipboardOperation, drop_old,
  drop_excess,
}

length-drop_excess : (m : ℕ) (ops : List ClipboardOperation) → length (drop_excess m ops) ≤ m
unfolding drop_excess
length-drop_excess m [] = omega arith
length-drop_excess m (op ∷ ops) = ground (arith, length-drop_excess m ops)

-- No operation is younger than the ones behind it, and none lies in the future.
abbrev pub Ordered : ℕ → List ClipboardOperation → Type 0
Ordered now [] = Unit
Ordered now (op ∷ ops) =
    (op.timestamp ≤ now) × All (λ o. op.timestamp ≤ o.timestamp) ops × Ordered now ops

drop_old-All :
    (P : ClipboardOperation → Type 0) (window now : ℕ) (ops : List ClipboardOperation)
    → All P ops
    → All P (drop_old window now ops)
unfolding drop_old
drop_old-All P window now [] h = tt
drop_old-All P window now (op ∷ ops) h = ground (arith, drop_old-All P window now ops)

drop_old-Ordered :
    (window now : ℕ) (ops : List ClipboardOperation)
    → Ordered now ops
    → Ordered now (drop_old window now ops)
unfolding drop_old
drop_old-Ordered window now [] h = tt
drop_old-Ordered window now (op ∷ ops) h = ground (arith, drop_old-Ordered window now ops)

drop_excess-Ordered :
    (m now : ℕ) (ops : List ClipboardOperation) → Ordered now ops → Ordered now (drop_excess m ops)
unfolding drop_excess
drop_excess-Ordered m now [] h = tt
drop_excess-Ordered m now (op ∷ ops) h = ground (arith, drop_excess-Ordered m now ops)

All-later :
    (t now : ℕ) (ops : List ClipboardOperation)
    → t ≤ now
    → (e : ClipboardOperation) → e.timestamp ≡ now
    → All (λ o. t ≤ o.timestamp) ops
    → All (λ o. t ≤ o.timestamp) (ops ++ e ∷ [])
All-later t now [] le e at h = ground arith
All-later t now (op ∷ ops) le e at h = (h.0, All-later t now ops le e at h.1)

Ordered-append :
    (before now : ℕ) (ops : List ClipboardOperation) (e : ClipboardOperation)
    → before ≤ now
    → e.timestamp ≡ now
    → Ordered before ops
    → Ordered now (ops ++ e ∷ [])
Ordered-append before now [] e le at h = ground arith
Ordered-append before now (op ∷ ops) e le at h = (
  omega arith,
  All-later op.timestamp now ops (omega arith) e at h.1,
  Ordered-append before now ops e le at h.2,
)

-- What holds of a detector at a time: its histories are in order, up to that time, and no longer
-- than `max_history`.
pub record IsTracked (now : ℕ) (d : LoopDetector) : Type 0 where
  pub formats_ordered : Ordered now d.format_history
  pub contents_ordered : Ordered now d.content_history
  pub formats_bounded : length d.format_history ≤ d.config.max_history
  pub contents_bounded : length d.content_history ≤ d.config.max_history

cleaned-Ordered :
    (c : LoopDetectionConfig) (now : ℕ) (ops : List ClipboardOperation)
    → Ordered now ops
    → Ordered now (cleaned c now ops)
cleaned-Ordered c now ops h =
    drop_excess-Ordered c.max_history now (drop_old (c.window_ms * 2) now ops)
      (drop_old-Ordered (c.window_ms * 2) now ops h)

Ordered-later :
    (before now : ℕ) (ops : List ClipboardOperation)
    → before ≤ now
    → Ordered before ops
    → Ordered now ops
Ordered-later before now [] le h = tt
Ordered-later before now (op ∷ ops) le h = (omega arith, h.1, Ordered-later before now ops le h.2)

cleanup_history-IsTracked :
    (d : LoopDetector) (now : ℕ)
    → Ordered now d.format_history
    → Ordered now d.content_history
    → IsTracked now (cleanup_history d now)
unfolding cleanup_history
cleanup_history-IsTracked d now f c = record {
  formats_ordered = cleaned-Ordered d.config now d.format_history f;
  contents_ordered = cleaned-Ordered d.config now d.content_history c;
  formats_bounded =
      length-drop_excess d.config.max_history
        (drop_old (d.config.window_ms * 2) now d.format_history);
  contents_bounded =
      length-drop_excess d.config.max_history
        (drop_old (d.config.window_ms * 2) now d.content_history);
}

IsTracked-either :
    (now : ℕ) (b : Bool) {d e : LoopDetector}
    → IsTracked now d
    → IsTracked now e
    → IsTracked now (if b then d else e)
IsTracked-either now true v w = v
IsTracked-either now false v w = w

module _ (sha256 : List ℕ → ℕ) where
  -- Recording formats, MIME types or content, at any later time, keeps both histories in order and
  -- bounded.
  pub record-IsTracked :
      (d : LoopDetector) (before now : ℕ) (source : ClipboardSource)
      → before ≤ now
      → IsTracked before d
      → ((formats : List ClipboardFormat)
          → IsTracked now (record_formats sha256 d formats source now))
        × ((mime_types : List (List ℕ))
            → IsTracked now (record_mime_types sha256 d mime_types source now))
        × ((bytes : List ℕ) → IsTracked now (record_content sha256 d bytes source now))
  unfolding record_formats record_mime_types record_content
  record-IsTracked d before now source le v =
      let f = Ordered-later before now d.format_history le v.formats_ordered in
      let c = Ordered-later before now d.content_history le v.contents_ordered in
      (
        λ formats.
            cleanup_history-IsTracked _ now
              (Ordered-append before now d.format_history _ le refl v.formats_ordered) c,
        λ mime_types.
            cleanup_history-IsTracked _ now
              (Ordered-append before now d.format_history _ le refl v.formats_ordered) c,
        λ bytes.
            IsTracked-either now d.config.enable_content_hashing
              (cleanup_history-IsTracked _ now f
                (Ordered-append before now d.content_history _ le refl v.contents_ordered))
              (record {
                formats_ordered = f;
                contents_ordered = c;
                formats_bounded = v.formats_bounded;
                contents_bounded = v.contents_bounded;
              }),
      )

-- The newest operation outlives the cleanup that follows it.
drop_old-append :
    (window now : ℕ) (ops : List ClipboardOperation) (e : ClipboardOperation)
    → age now e.timestamp ≤ window
    → drop_old window now (ops ++ e ∷ []) ≡ drop_old window now ops ++ e ∷ []
unfolding drop_old
drop_old-append window now [] e young = ground arith
drop_old-append window now (op ∷ ops) e young = ground (arith, drop_old-append window now ops e)

drop_excess-append :
    (m : ℕ) (ops : List ClipboardOperation) (e : ClipboardOperation)
    → 0 < m
    → (ops' : List ClipboardOperation) × (drop_excess m (ops ++ e ∷ []) ≡ ops' ++ e ∷ [])
unfolding drop_excess
drop_excess-append m [] e pos = ([], ground arith)
drop_excess-append m (op ∷ ops) e pos = elim (Bool-cases (ltb m (length (op ∷ (ops ++ e ∷ []))))) [
  | inl excess ↦ let (ops', same) = drop_excess-append m ops e pos in (ops', rw excess same)
  | inr fits ↦ (op ∷ ops, rw fits)
]

pub cleaned-append :
    (c : LoopDetectionConfig) (now : ℕ) (ops : List ClipboardOperation) (e : ClipboardOperation)
    → 0 < c.max_history
    → e.timestamp ≡ now
    → (ops' : List ClipboardOperation) × (cleaned c now (ops ++ e ∷ []) ≡ ops' ++ e ∷ [])
cleaned-append c now ops e pos at =
    let (ops', same) =
      drop_excess-append c.max_history (drop_old (c.window_ms * 2) now ops) e pos in
    (ops', rw (drop_old-append (c.window_ms * 2) now ops e (omega arith)) same)
