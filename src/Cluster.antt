-- ===== src/Cluster.antt =====
-- cluster.py: the plan of a launch over several nodes, and the commands that carry it out.
pub mod Shell
pub mod Outcome
pub mod Environment
pub mod Topology
pub mod Serial
pub mod Commands
pub mod Plan
pub mod Paths
pub mod Execution
mod Tests
