-- ===== src/Clipboard/Sync/Ownership.antt =====
-- Who owns the clipboard after a call, and what a refused call leaves.
use cheirizo.Prelude.{ℕ, ◌<◌, Bool, true, false, List, ◌≡◌, ◌↔◌, ◌⊎◌, refl, arith}
use cheirizo.Clipboard.LoopDetector.{ClipboardFormat, age}
use cheirizo.Clipboard.Sync.{
  idle, syncing, SyncManager, ClipboardState, rdp_owned, portal_owned, allow, block,
  blocked_by_owner, echo_window, handle_portal_formats,
}

-- While the RDP client owns the clipboard, a portal announcement that is not authoritative, or that
-- comes within two seconds of the client's, changes nothing and is blocked.
pub portal_blocked_while_rdp_owns :
    (sha256 : List ℕ → ℕ) (m : SyncManager) (formats : List ClipboardFormat) (since : ℕ)
    (mime_types : List (List ℕ)) (authoritative : Bool) (now : ℕ)
    → m.state ≡ rdp_owned formats since
    → (authoritative ≡ false) ⊎ (age now since < echo_window)
    → handle_portal_formats sha256 m mime_types authoritative now ≡ (m, block)
unfolding handle_portal_formats
portal_blocked_while_rdp_owns sha256 m formats since mime_types authoritative now owned why =
    ground arith

-- The RDP client has announced formats less than two seconds ago, and still owns the clipboard.
abbrev pub FreshRdpOwner : ClipboardState → ℕ → Type 0
FreshRdpOwner s now =
    (formats : List ClipboardFormat) × (since : ℕ) × (s ≡ rdp_owned formats since)
    × (age now since < echo_window)

fresh_owner_iff :
    (s : ClipboardState) (now : ℕ) → (blocked_by_owner s true now ≡ true) ↔ FreshRdpOwner s now
unfolding blocked_by_owner
fresh_owner_iff idle now = (λ h. absurd (cc), λ (f, since, e, h). absurd (cc))
fresh_owner_iff (portal_owned mimes) now = (λ h. absurd (cc), λ (f, since, e, h). absurd (cc))
fresh_owner_iff (syncing direction) now = (λ h. absurd (cc), λ (f, since, e, h). absurd (cc))
fresh_owner_iff (rdp_owned formats since) now =
    (λ h. (formats, since, refl, ground arith), λ (f, t, e, h). ground arith)

-- An authoritative announcement of the portal is blocked exactly while the RDP client has announced
-- formats less than two seconds ago and owns the clipboard; a blocked one changes nothing, and
-- after an allowed one the portal owns the clipboard.
pub authoritative_blocked_iff :
    (sha256 : List ℕ → ℕ) (m : SyncManager) (mime_types : List (List ℕ)) (now : ℕ)
    → let r = handle_portal_formats sha256 m mime_types true now in
      ((r.1 ≡ block) ↔ FreshRdpOwner m.state now)
      × (r.1 ≡ block → r.0 ≡ m)
      × (r.1 ≡ allow → r.0.state ≡ portal_owned mime_types)
unfolding handle_portal_formats
authoritative_blocked_iff sha256 m mime_types now =
    let (to, from) = fresh_owner_iff m.state now in
    ((λ h. to (ground arith), λ h. ground (arith, from h)), λ h. ground arith, λ h. ground arith)
