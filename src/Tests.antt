-- ===== src/Tests.antt =====
-- Runs of the model on concrete sessions, configurations, plugins and versions, and the theorems at
-- such inputs.
pub mod Sessions
pub mod Versions
pub mod Plugins
pub mod Requests
pub mod Reloads
pub mod Tools
pub mod Installers
pub mod Proxy
pub mod Transports
pub mod Running
pub mod Wizard
pub mod Agents
