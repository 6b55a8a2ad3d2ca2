-- ===== src/Harness.antt =====
-- The harnesses of emulator/run/common: they run a workload, print its cycles, and end the simulation.
pub mod Decimal
pub mod Verdict
mod Tests
