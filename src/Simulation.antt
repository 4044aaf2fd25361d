-- ===== src/Simulation.antt =====
-- BroadcastSign/simulations/randomgraph_benchAllOptions.py: simulations of random graphs with each
-- option alone.
pub mod Texts
pub mod Ned
pub mod Links
pub mod Ini
pub mod Reading
pub mod Queue
pub mod Filling
pub mod Run
pub mod Worker
pub mod Attempts
pub mod Tables
pub mod Completion
pub mod Rounds
pub mod Reference
pub mod Scalability
pub mod Pool
mod Examples
