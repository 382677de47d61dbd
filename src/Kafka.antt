-- ===== src/Kafka.antt =====
-- services/shared/kafka: the events, the topics that carry them, and how they are published.
pub mod Topics
pub mod Schemas
pub mod Producer
pub mod Consumer
mod Tests
