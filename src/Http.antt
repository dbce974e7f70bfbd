-- ===== src/Http.antt =====
-- The HTTP client: infra/http/client.py.
pub mod Models
pub mod Request
pub mod Attempts
pub mod Answers
pub mod Headers
mod Tests
