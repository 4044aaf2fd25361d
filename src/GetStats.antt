-- ===== src/GetStats.antt =====
-- code3/getStats.py: what is computed from the logs of an experiment.
pub mod Defs
pub mod Grouping
pub mod Summary
pub mod Latency
pub mod Counts
mod Examples
