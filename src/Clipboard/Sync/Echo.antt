-- ===== src/Clipboard/Sync/Echo.antt =====
-- Which repeats and echoes the manager stops, and which it does not look for.
use mathlib.Core.List.{reverse, reverse-cons}
use cheirizo.Prelude.{
  ℕ, ◌≤◌, ◌<◌, Bool, true, false, not, List, [], ◌∷◌, ◌++◌, ◌≡◌, refl, arith, All,
}
use cheirizo.Clipboard.LoopDetector.{
  ClipboardOperation, ClipboardFormat, ClipboardSource, rdp, local, age, scan, would_cause_loop,
  would_cause_loop_mime, record_sync, hash_formats, hash_mime_types,
}
use cheirizo.Clipboard.LoopDetector.Collision.{recorded_collides}
use cheirizo.Clipboard.Sync.{
  SyncManager, blocked_by_owner, allow, handle_rdp_formats, handle_portal_formats, check_content,
}

-- Where content is hashed and the history holds something, content that came from one side and passed
-- is stopped when it comes back from the other side within the window, with no call in between, and
-- the refused echo changes nothing.
pub content_echo_stopped :
    (sha256 : List ℕ → ℕ) (m m' : SyncManager) (content : List ℕ) (from_rdp : Bool) (t later : ℕ)
    → 0 < m.detector.config.max_history
    → m.detector.config.enable_content_hashing ≡ true
    → age later t ≤ m.detector.config.window_ms
    → check_content sha256 m content from_rdp t ≡ (m', true)
    → check_content sha256 m' content (not from_rdp) later ≡ (m', false)
unfolding check_content
content_echo_stopped sha256 m m' content true t later pos on young e =
    ground (arith, (recorded_collides sha256 m.detector t later rdp [] [] content pos young).2 on)
content_echo_stopped sha256 m m' content false t later pos on young e =
    ground (arith, (recorded_collides sha256 m.detector t later local [] [] content pos young).2 on)

-- The same formats announced twice by the RDP client within the window: the second announcement is
-- refused as a loop, and changes nothing.
pub rdp_repeat_refused :
    (sha256 : List ℕ → ℕ) (m m' : SyncManager) (formats : List ClipboardFormat) (t later : ℕ)
    → 0 < m.detector.config.max_history
    → age later t ≤ m.detector.config.window_ms
    → handle_rdp_formats sha256 m formats t ≡ (m', true)
    → handle_rdp_formats sha256 m' formats later ≡ (m', false)
unfolding handle_rdp_formats would_cause_loop record_sync
rdp_repeat_refused sha256 m m' formats t later pos young e =
    ground (arith, (recorded_collides sha256 m.detector t later rdp formats [] [] pos young).0)

-- Every operation in a history is of one source.
abbrev pub AllFrom : ClipboardSource → List ClipboardOperation → Type 0
AllFrom s = All (λ op. op.source ≡ s)

AllFrom-append :
    (s : ClipboardSource) (ops : List ClipboardOperation) (op : ClipboardOperation)
    → AllFrom s ops
    → op.source ≡ s
    → AllFrom s (ops ++ op ∷ [])
AllFrom-append s [] op h k = (k, tt)
AllFrom-append s (o ∷ ops) op h k = (h.0, AllFrom-append s ops op h.1 k)

AllFrom-reverse :
    (s : ClipboardSource) (ops : List ClipboardOperation) → AllFrom s ops → AllFrom s (reverse ops)
AllFrom-reverse s [] h = tt
AllFrom-reverse s (o ∷ ops) h =
    rw (reverse-cons o ops) (AllFrom-append s (reverse ops) o (AllFrom-reverse s ops h.1) h.0)

scan-AllFrom :
    (window now hash : ℕ) (s : ClipboardSource) (ops : List ClipboardOperation)
    → AllFrom s ops
    → scan window now hash s ops ≡ false
unfolding scan
scan-AllFrom window now hash s [] h = refl
scan-AllFrom window now hash rdp (o ∷ ops) h =
    ground (arith, scan-AllFrom window now hash rdp ops h.1)
scan-AllFrom window now hash local (o ∷ ops) h =
    ground (arith, scan-AllFrom window now hash local ops h.1)

-- With only local operations on record, an announcement of the RDP client is always taken: the
-- check compares it with the client's own announcements, never with the local ones. So it is, the
-- other way round, with MIME types of the portal that no RDP client blocks.
pub cross_source_not_checked :
    (sha256 : List ℕ → ℕ) (m : SyncManager) (formats : List ClipboardFormat)
    (mime_types : List (List ℕ)) (now : ℕ)
    → (AllFrom local m.detector.format_history → (handle_rdp_formats sha256 m formats now).1 ≡ true)
      × (AllFrom rdp m.detector.format_history
          → blocked_by_owner m.state false now ≡ false
          → (handle_portal_formats sha256 m mime_types false now).1 ≡ allow)
unfolding handle_rdp_formats handle_portal_formats would_cause_loop would_cause_loop_mime
cross_source_not_checked sha256 m formats mime_types now = (
  λ h. ground (
    arith,
    scan-AllFrom m.detector.config.window_ms now (hash_formats sha256 formats) local
        (reverse m.detector.format_history) (AllFrom-reverse local m.detector.format_history h),
  ),
  λ h free. ground (
    arith,
    scan-AllFrom m.detector.config.window_ms now (hash_mime_types sha256 mime_types) rdp
        (reverse m.detector.format_history) (AllFrom-reverse rdp m.detector.format_history h),
  ),
)
