-- ===== src/Retrieval.antt =====
-- crates/retrieval: the Merkle index of a repository tree.
pub mod Merkle
pub mod Drift
