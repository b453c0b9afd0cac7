-- ===== src/Ai.antt =====
-- The assistant's segment (internal/ai): the check of the dashboard that it has built, and the folder and
-- the account that it gets.
pub mod Macros
pub mod Panels
pub mod Dashboard
pub mod Grafana
pub mod Setup
mod Tests
