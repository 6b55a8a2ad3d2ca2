-- ===== src/Tsvc.antt =====
-- The loops of emulator/run/src/tsvc, one kernel in a file.
pub mod Memory
pub mod Straight
pub mod Branches
pub mod Pointwise
pub mod Dependence
pub mod Bounds
pub mod Sweep
pub mod Packing
pub mod Search
mod Tests
