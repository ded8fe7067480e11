-- ===== src/Kafka.antt =====
-- The Kafka data source.
pub mod Checkpoint
