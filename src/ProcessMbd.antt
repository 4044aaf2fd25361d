-- ===== src/ProcessMbd.antt =====
-- code3/process_results_MBD_7_11.py: the effect of single options, against the base configuration.
pub mod Defs
pub mod Tables
pub mod Ready
pub mod Run
pub mod Compare
pub mod Examples
