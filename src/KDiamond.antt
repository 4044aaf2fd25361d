-- ===== src/KDiamond.antt =====
-- code3/kdiamond.py: k-diamond graphs.
pub mod Defs
pub mod Shape
pub mod Added
pub mod Removed
pub mod Popped
pub mod Picked
pub mod Moved
pub mod Marked
pub mod Expanded
pub mod Replaced
pub mod Invariant
pub mod Phases
pub mod Rays
pub mod Rooted
pub mod Growth
pub mod Paste
pub mod Joined
pub mod Order
pub mod Stalled
mod Examples
