-- ===== src/Webhooks.antt =====
-- Webhooks: infra/plugins/webhooks.
pub mod Models
pub mod Signature
pub mod Route
pub mod Once
mod Tests
