-- ===== src/Update.antt =====
-- internal/update: the check for a newer release and the installation of a verified one.
pub mod Version
pub mod Transfer
pub mod Release
pub mod Apply
