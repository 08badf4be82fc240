-- ===== src/Assistant.antt =====
-- src/modules/assistant: answers, conversations, and the account-owned keys and models.
pub mod Store
pub mod Generation
pub mod Selection
pub mod Views
pub mod Conversations
pub mod Configuration
pub mod Lifecycle
pub mod Providers
pub mod Worker
pub mod Sync
mod Tests
