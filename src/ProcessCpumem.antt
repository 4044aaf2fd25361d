-- ===== src/ProcessCpumem.antt =====
-- code3/process_cpumem.py: the largest processor and memory use.
pub mod Defs
pub mod Maxima
pub mod Examples
