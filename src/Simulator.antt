-- ===== src/Simulator.antt =====
-- cmd/simulator: the agent of one simulated cluster, and the terminal interface.
pub mod Cluster
pub mod Display
