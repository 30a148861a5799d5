-- ===== src/Reachability/KuboConfig.antt =====
-- src/reachability/kubo-config.ts: what `bitsocial reachability` changes in the kubo config, and how it
-- takes the changes back. `none` is a TypeError, or an array or text where the config has an object.
pub mod Defs
pub mod Lists
pub mod Undo
pub mod Baseline
pub mod Filters
pub mod AutoTls
pub mod Managed
pub mod RoundTrip
unfoldable pub use Defs.*
