-- ===== src/Clipboard.antt =====
-- src/rdp/channels/clipboard: loop detection (core/loop_detector.rs), the ownership policy
-- (sync.rs), the chunked transfer (core/transfer.rs), the cleaning of names and texts
-- (core/sanitize.rs), the conversions of formats (core/formats.rs) and the texts on the wire
-- (manager.rs). SHA-256 is a crate: a parameter.
mod Tests
mod FormatTests
mod RtfTests
pub mod LoopDetector
pub mod Sync
pub mod Transfer
pub mod Sanitize
pub mod Formats
pub mod Wire
