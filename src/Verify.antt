-- ===== src/Verify.antt =====
-- The assertions on a running ClickHouse (internal/verify): the text of the answers, the HTTP round
-- trip, the queries and the checks.
pub mod Answers
pub mod Network
pub mod Queries
pub mod Checks
pub mod Docker
pub mod Tests
