-- ===== src/Sink.antt =====
-- The sinks, which load the events of a stream into tables (internal/sink).
pub mod Decoder
pub mod Handlers
pub mod Rows
pub mod Registry
pub mod Batch
pub mod Loop
pub mod Bind
pub mod Shelf
mod Tests
