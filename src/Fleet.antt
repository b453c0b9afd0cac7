-- ===== src/Fleet.antt =====
-- The fleet: which cabinets a deployment has (internal/fleetsize), what is generated for them
-- (tools/gen-compose) and what the tour reads of them (internal/tour/fleet.go).
pub mod Size
pub mod Artifacts
pub mod Cabinets
pub mod Names
pub mod Confs
pub mod Seed
pub mod Compose
pub mod Output
pub mod Tour
pub mod Ports
pub mod Consistency
pub mod Tests
