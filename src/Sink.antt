-- ===== src/Sink.antt =====
-- internal/sink: the sinks, and what wraps them.
pub mod Retry
pub mod Dlq
pub mod Batch
pub mod Metrics
pub mod Webhook
pub mod Kafka
pub mod Chain
pub mod Pipeline
pub mod Options
pub mod Stdout
pub mod Lifecycle
pub mod TestServers
pub mod Tests
pub mod ClientTests
pub mod PipelineTests
pub mod KafkaTests
pub mod ServerTests
