-- ===== src/Health.antt =====
-- Health reports: infra/core/health.py and infra/plugins/provider_health.py.
pub mod Redaction
pub mod Providers
mod Tests
