-- ===== src/Plugin.antt =====
-- internal/plugin: discovery, compatibility and lifecycle of vault plugin processes.
pub mod Compat
pub mod Manager
pub mod Discovery
