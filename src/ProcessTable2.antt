-- ===== src/ProcessTable2.antt =====
-- code3/process_results_table2.py: its loop over the results.
pub mod Defs
pub mod Run
pub mod Agreement
pub mod Examples
