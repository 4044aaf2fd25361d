-- ===== src/ProcessResults.antt =====
-- code3/process_results.py: the best configurations of a benchmark.
pub mod Defs
pub mod Ids
pub mod Numbering
pub mod Unique
pub mod Proportions
pub mod Counted
pub mod Top
mod Examples
