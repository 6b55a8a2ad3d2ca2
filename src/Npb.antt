-- ===== src/Npb.antt =====
-- The NAS integer sort benchmark, emulator/run/src/npb/npb_is_s.
pub mod Config
pub mod Population
pub mod Buckets
pub mod Verify
pub mod Rank
pub mod Random
pub mod Main
mod Tests
