-- ===== src/Web.antt =====
-- ubsim_lab/web.py: the browser workbench.
pub mod Frames
pub mod Terminal
pub mod Workbench
