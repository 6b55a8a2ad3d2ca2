-- ===== src/Dlmul/Suite.antt =====
-- The benches and microbenchmarks of emulator/run/src/dlmul-synthesis together: what they compute in common, and the
-- agreement of the variants, for which the suite compares their times.
pub mod Kernels
pub mod Variants
