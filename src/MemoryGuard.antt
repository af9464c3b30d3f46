-- ===== src/MemoryGuard.antt =====
-- tools/host_memory_guard.py: the memory check before a launch, and the monitor of a run.
pub mod Capacity
pub mod Preflight
pub mod Monitor
