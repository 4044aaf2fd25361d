-- ===== src/DisjointPaths.antt =====
-- BroadcastSign/simulations/disjointPaths.py and disjointPathsToSource.py: whether a node may deliver.
pub mod Defs
pub mod Layers
pub mod Total
pub mod Verdict
mod Examples
