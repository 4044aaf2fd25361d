-- ===== src/GenerateGraphs.antt =====
-- code3/generateGraphs.py: `Defs` holds its functions, the other children the theorems on them.
pub mod Defs
mod Ring
pub mod Wheel
pub mod Multipartite
pub mod Regular
mod Examples
