-- ===== src/Update.antt =====
-- src/update and `bitsocial update install`: versions, and the daemons around an update.
pub mod Semver
pub mod Restart
pub mod Install
pub mod Fast
