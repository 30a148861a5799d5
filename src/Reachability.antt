-- ===== src/Reachability.antt =====
-- src/reachability: what makes the node dialable by browsers.
pub mod KuboConfig
pub mod Runtime
pub mod Discovery
pub mod Caddyfile
pub mod Store
pub mod Hostnames
pub mod Checks
pub mod Unmanaged
