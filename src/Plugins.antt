-- ===== src/Plugins.antt =====
-- The plugin platform: infra/plugins/contract.py and infra/plugins/manager.py.
pub mod Contract
pub mod Order
pub mod Manager
mod Tests
