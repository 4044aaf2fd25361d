-- ===== src/Nx.antt =====
-- networkx, the third-party graph library of the scripts.
mod Api
pub mod Adds
pub mod Store
pub mod Tree
pub mod Labelled
pub mod LabelledStore
pub mod TreeStore
pub use Api.*
