-- ===== src/Config.antt =====
-- Configuration: infra/config/loader.py.
pub mod Env
pub mod Quoted
pub mod Settings
pub mod Merge
pub mod Merged
mod Tests
