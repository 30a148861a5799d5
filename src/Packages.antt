-- ===== src/Packages.antt =====
-- src/common-utils/package-registry.ts: the packages that plug into pkc-js.
pub mod Loader
pub mod Names
pub mod Installing
