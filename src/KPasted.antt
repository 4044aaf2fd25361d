-- ===== src/KPasted.antt =====
-- code3/kpasted.py: k-pasted graphs.
pub mod Defs
pub mod Leaves
pub mod Pruned
pub mod Growing
pub mod FirstLeaf
pub mod Expansion
pub mod Size
pub mod Typed
pub mod Closed
pub mod Paste
pub mod Vertices
pub mod Pasted
pub mod Joined
pub mod Relabelled
pub mod Order
pub mod Examples
