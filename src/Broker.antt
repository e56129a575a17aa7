-- ===== src/Broker.antt =====
-- internal/broker: routing of published messages to subscribers.
pub mod Wildcard
pub mod Refs
pub mod Queue
pub mod Topic
pub mod Router
pub mod Writer
mod Tests
