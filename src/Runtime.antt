-- ===== src/Runtime.antt =====
-- The freestanding C runtimes of the emulator's workloads.
pub mod Heap
pub mod Text
mod Tests
