-- ===== src/Color.antt =====
-- src/rdp/channels/graphics/egfx/color: the colour conversion and the two views of AVC444.
pub mod Convert
pub mod Planes
pub mod Packing
pub mod Tests
