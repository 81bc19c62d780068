-- ===== src/Portal.antt =====
-- src/desktop/portal/xdg_desktop: the sessions of the desktop portal.
pub mod Types
pub mod Session
pub mod Manager
pub mod Tests
