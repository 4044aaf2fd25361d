-- ===== src/KDiamond/Phases.antt =====
-- code3/kdiamond.py: each phase keeps the invariant and adds one node to the graph.
pub mod Filling
pub mod Indices
pub mod Replacing
pub mod Turns
pub mod NextLevel
pub mod Levels
pub mod Start
