-- ===== src/Auth.antt =====
-- Authentication: infra/plugins/auth.
pub mod Models
pub mod Keys
pub mod Tokens
pub mod Dependencies
pub mod Accepted
pub mod Issued
pub mod Rights
mod Tests
