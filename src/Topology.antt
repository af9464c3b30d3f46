-- ===== src/Topology.antt =====
-- ubsim_lab/topology.py: validation of a declarative topology, and the launch plan.
pub mod Fields
pub mod Nodes
pub mod Machine
pub mod Devices
pub mod Links
pub mod Plan
