-- ===== src/Migration.antt =====
-- internal/migration: the import of an old installation, once.
pub mod Install
pub mod Reads
pub mod Settings
pub mod Snapshots
