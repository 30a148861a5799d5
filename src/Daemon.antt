-- ===== src/Daemon.antt =====
-- src/common-utils/daemon-state.ts: the records of running daemons, and who supervises them.
pub mod Cgroup
pub mod Supervisor
pub mod States
pub mod Kubo
pub mod Watchdog
pub mod RepoGc
pub mod Endpoints
pub mod KuboRepo
