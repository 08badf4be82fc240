-- ===== src/Infra.antt =====
-- src/infra and src/bootstrap: the services that the modules share.
pub mod Schedule
pub mod Shutdown
pub mod Queue
pub mod Cache
pub mod Http
pub mod Language
pub mod Encryption
mod Tests
