-- ===== src/Tests.antt =====
-- The library's functions at concrete inputs.
mod Topology
mod QemuPorts
mod MemoryGuard
mod Relay
mod Config
mod Launch
mod Checkpoint
mod Experiments
mod Preflight
mod Launcher
mod Gem5
mod WriteTrial
mod RmaRegression
mod Web
