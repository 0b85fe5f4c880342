-- ===== src/Compaction.antt =====
-- crates/compaction: context epochs and compaction manifests.
pub mod Epochs
pub mod Invalidation
pub mod Manifest
