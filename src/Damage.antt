-- ===== src/Damage.antt =====
-- Damage detection (src/rdp/channels/graphics/damage): rectangles, pixel comparison, region
-- building, and the detector that plans updates from consecutive frames.
mod Tests
pub mod Region
pub mod Regions
pub mod Compare
pub mod Stats
pub mod Detector
