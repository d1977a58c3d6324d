-- ===== src/Daemon.antt =====
-- internal/daemon: the gRPC service and the life of the daemon.
pub mod Server
pub mod Plugins
pub mod Lifecycle
pub mod Vaults
pub mod Watcher
