-- ===== src/Streams.antt =====
-- Redis streams: infra/streaming/streams_manager.py.
pub mod Message
pub mod Manager
pub mod Consumer
pub mod Outcomes
mod Tests
