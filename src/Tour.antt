-- ===== src/Tour.antt =====
-- The scripted tour (internal/tour): its queries, its phases with their assertions, and the two ways to
-- run them.
pub mod Queries
pub mod Stage
pub mod Phase
pub mod Phases
pub mod Table
pub mod Runs
pub mod Filter
pub mod Ai
pub mod Only
pub mod Tests
