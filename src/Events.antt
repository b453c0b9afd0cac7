-- ===== src/Events.antt =====
-- The CloudEvents envelope and the subjects of the events (internal/events).
pub mod Subject
pub mod Wire
pub mod Envelope
pub mod Routing
pub mod Delivery
pub mod Paper
mod Tests
