-- ===== src/Merkle.antt =====
-- internal/merkle: leaves, and the tree whose structural hashes tell two peers apart.
pub mod Snapshot
pub mod FileInfo
pub mod Codec
pub mod Tree
pub mod Differ
mod Tests
