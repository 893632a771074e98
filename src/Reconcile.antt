-- ===== src/Reconcile.antt =====
-- internal/reconcile: what a peer does about a path on which the two trees differ.
pub mod Conflict
pub mod Plan
pub mod Symmetry
pub mod Converge
pub mod Kept
pub mod Tombstone
pub mod Transfer
pub mod Blocks
pub mod Debounce
pub mod Startup
pub mod Engine
mod Tests
