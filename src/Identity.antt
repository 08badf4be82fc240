-- ===== src/Identity.antt =====
-- src/modules/identity: user accounts and invitations, and the application's sessions.
pub mod Store
pub mod Users
pub mod Invitations
pub mod Sessions
pub mod Settlement
mod Tests
