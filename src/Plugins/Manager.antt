-- ===== src/Plugins/Manager.antt =====
-- infra/plugins/manager.py: `PluginManager`.
pub mod State
pub mod Checks
pub mod Methods
pub mod Starting
pub mod Stopping
pub mod Lifecycle
pub mod Rollback
pub mod Closing
pub mod Refusal
pub mod Activation
pub mod Startup
pub mod Consistent
pub mod Services
