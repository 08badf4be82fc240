-- ===== src/Assistant/Configuration.antt =====
-- assistant-configuration.service.ts, the changes: an account's provider keys, the catalog rows of
-- each key, model switches, the default and backup models, and the audit trail of all of them.
pub mod Audit
pub mod Preferences
pub mod Catalog
pub mod Keys
