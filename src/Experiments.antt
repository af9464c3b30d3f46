-- ===== src/Experiments.antt =====
-- ubsim_lab/experiments.py: recipes of measurements and how they run.
pub mod Values
pub mod Reports
pub mod Recipe
pub mod Runnable
pub mod Command
pub mod Schedule
pub mod Preflight
