-- ===== src/Benchmarks.antt =====
-- code3/benchEachOption.py and code3/benchEachOptionAlone_7_11.py, which run an experiment for each of
-- many commands.
pub mod Commands
pub mod Flags
pub mod Choices
pub mod Alone
mod Examples
