-- ===== src/Checkpoint.antt =====
-- crates/checkpoint: the write lease of a scope and its fencing epochs.
pub mod Lease
pub mod Fencing
pub mod Delta
pub mod Store
