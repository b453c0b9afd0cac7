-- ===== src/Cmd.antt =====
-- The programs (cmd): democtl, the two sinks and the simulator of a cabinet.
pub mod Cut
pub mod Democtl
mod Tests
