-- ===== src/Auth.antt =====
-- src/auth: the lockout of peers that fail, user names, and the static password validator.
mod Tests
pub mod PeerLimit
pub mod Username
pub mod StaticPassword
