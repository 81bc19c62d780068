-- ===== src/Sesman.antt =====
-- src/sesman: the registry of a user's session and the processes in it.
mod Tests
pub mod Process
pub mod State
pub mod Scalars
pub mod Ini
pub mod Render
pub mod Validate
pub mod IniTests
pub mod Health
pub mod Teardown
pub mod Registry
pub mod Cleanup
pub mod Start
pub mod Ensure
