-- ===== src/Clipboard/Sync.antt =====
-- src/rdp/channels/clipboard/sync.rs.
pub mod Ownership
pub mod Echo
use cheirizo.Prelude.{ℕ, Bool, true, false, not, ◌&&◌, ◌||◌, ltb, if◌then◌else◌, List, [], ◌∷◌}
use cheirizo.Clipboard.LoopDetector.{
  LoopDetector, LoopDetectionConfig, ClipboardFormat, ClipboardSource, rdp, local, default_config,
  with_config, clear, age, record_sync, record_formats, record_mime_types, record_content,
  would_cause_loop, would_cause_loop_mime, would_cause_content_loop, is_rate_limited,
}

abbrev pub echo_window : ℕ
echo_window = 2000

pub data SyncDirection : Type 0 where
  rdp_to_portal portal_to_rdp : SyncDirection

pub data PortalSyncDecision : Type 0 where
  allow block : PortalSyncDecision

pub data ClipboardState : Type 0 where
  idle : ClipboardState
  rdp_owned : List ClipboardFormat → ℕ → ClipboardState
  portal_owned : List (List ℕ) → ClipboardState
  syncing : SyncDirection → ClipboardState

pub record SyncManager : Type 0 where
  pub state : ClipboardState
  pub detector : LoopDetector

unfoldable pub new : LoopDetectionConfig → SyncManager
unfolding with_config
new config = record { state = idle; detector = with_config config }

unfoldable pub set_syncing : SyncManager → SyncDirection → SyncManager
set_syncing m direction = record m { state = syncing direction }

unfoldable pub reset : SyncManager → SyncManager
reset m = record m { state = idle }

unfoldable pub reset_loop_detector : SyncManager → SyncManager
unfolding clear
reset_loop_detector m = record m { detector = clear m.detector }

abbrev pub source_of : Bool → ClipboardSource
source_of from_rdp = if from_rdp then rdp else local

unfoldable pub sync_is_rate_limited : SyncManager → Bool → ℕ → Bool
unfolding is_rate_limited
sync_is_rate_limited m from_rdp now = is_rate_limited m.detector (source_of from_rdp) now

-- The first guard of `handle_portal_formats`.
unfoldable pub blocked_by_owner : ClipboardState → Bool → ℕ → Bool
blocked_by_owner idle authoritative now = false
blocked_by_owner (rdp_owned formats since) authoritative now =
    not authoritative || ltb (age now since) echo_window
blocked_by_owner (portal_owned mime_types) authoritative now = false
blocked_by_owner (syncing direction) authoritative now = false

module _ (sha256 : List ℕ → ℕ) where
  unfoldable pub handle_rdp_formats : SyncManager → List ClipboardFormat → ℕ → SyncManager × Bool
  handle_rdp_formats m formats now =
      if would_cause_loop sha256 m.detector formats now then (m, false) else (
        record {
          detector = record_sync (record_formats sha256 m.detector formats rdp now) rdp now;
          state = rdp_owned formats now;
        },
        true,
      )

  unfoldable pub handle_portal_formats :
      SyncManager → List (List ℕ) → Bool → ℕ → SyncManager × PortalSyncDecision
  unfolding blocked_by_owner
  handle_portal_formats m mime_types authoritative now =
      if blocked_by_owner m.state authoritative now
      then (m, block)
      else if not authoritative && would_cause_loop_mime sha256 m.detector mime_types now
      then (m, block)
      else (
        record {
          detector =
              record_sync (record_mime_types sha256 m.detector mime_types local now) local now;
          state = portal_owned mime_types;
        },
        allow,
      )

  unfoldable pub check_content : SyncManager → List ℕ → Bool → ℕ → SyncManager × Bool
  check_content m content from_rdp now =
      let source = source_of from_rdp in
      if would_cause_content_loop sha256 m.detector content source now
      then (m, false)
      else (record m { detector = record_content sha256 m.detector content source now }, true)

  unfoldable pub set_rdp_formats : SyncManager → List ClipboardFormat → ℕ → SyncManager
  set_rdp_formats m formats now = record {
    detector = record_formats sha256 m.detector formats rdp now;
    state = rdp_owned formats now;
  }

  unfoldable pub set_portal_formats : SyncManager → List (List ℕ) → ℕ → SyncManager
  set_portal_formats m mimes now = record {
    detector = record_mime_types sha256 m.detector mimes local now;
    state = portal_owned mimes;
  }
