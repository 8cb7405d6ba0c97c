-- ===== src/Engine.antt =====
-- pkg/engine: rule matching, the handling of messages and the life cycle.
pub mod Matcher
pub mod Queues
pub mod State
pub mod Lifecycle
pub mod Handle
pub mod Workers
pub mod Template
