-- ===== src/Tests.antt =====
-- The theorems applied to concrete inputs, by component.
pub mod Kubo
pub mod Runtime
pub mod Updates
pub mod Daemons
pub mod Files
pub mod Merging
pub mod Supervision
pub mod Reaching
pub mod Moves
pub mod Endpoints
pub mod Repo
