-- ===== src/Initflow.antt =====
-- internal/initflow: the files that `locksmith init` changes.
pub mod Json
pub mod Hooks
pub mod Sandbox
pub mod Gpg
pub mod Templates
pub mod Agents
pub mod Shell
pub mod Flow
