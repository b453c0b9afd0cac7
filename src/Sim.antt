-- ===== src/Sim.antt =====
-- The simulated roadside cabinet (internal/sim).
pub mod Emitter
pub mod Runtime
pub mod Demand
pub mod Gateway
pub mod Reversible
pub mod Dms
pub mod Asc
pub mod Perception
pub mod Camera
pub mod Lidar
pub mod Incidents
pub mod Publisher
pub mod Scenario
pub mod Cabinet
mod Tests
