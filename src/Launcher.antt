-- ===== src/Launcher.antt =====
-- ubsim_lab/config_launcher.py: how a validated topology is started.
pub mod QemuParts
pub mod Process
pub mod Options
pub mod Settings
pub mod Command
pub mod Devices
pub mod Gem5
pub mod Prepare
pub mod QemuSettings
pub mod QemuDevices
pub mod Qemu
