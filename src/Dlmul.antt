-- ===== src/Dlmul.antt =====
-- The LMUL benches of emulator/run/src/dlmul-synthesis: one kernel in several vector lengths.
pub mod Rvv
pub mod Strip
pub mod Micro
pub mod Phases
pub mod Live
pub mod Switch
pub mod Bench
pub mod Inputs
pub mod Pressure
pub mod Gamma
pub mod Spring
pub mod Matrix
pub mod Alias
pub mod Ints
pub mod Widen
pub mod Cliff
pub mod Suite
mod Machine
mod Tests
