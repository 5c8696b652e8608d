-- ===== src/Strategy.antt =====
-- internal/strategy: the migration strategies.
pub mod Paths
pub mod LineTail
pub mod Mount
pub mod Mover
pub mod Topology
pub mod Release
pub mod Session
pub mod Target
pub mod Runs
