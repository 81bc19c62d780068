-- ===== src/Input.antt =====
-- The input channel: src/rdp/channels/input.
pub mod Mapper
pub mod Keyboard
pub mod Mouse
pub mod Tests
