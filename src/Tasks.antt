-- ===== src/Tasks.antt =====
-- Background tasks: infra/plugins/tasks.
pub mod Models
pub mod Memory
pub mod Worker
pub mod Broker
mod Tests
