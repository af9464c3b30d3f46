-- ===== src/WriteTrial.antt =====
-- tools/check_qemu_write_trial.py: the audit of a QEMU trial.
pub mod Labels
pub mod Command
pub mod Flags
pub mod Supported
pub mod Counters
pub mod Balanced
pub mod Records
pub mod OneKind
