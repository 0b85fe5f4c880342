-- ===== src/ProtocolState.antt =====
-- crates/protocol-state: the journal of protocol records.
pub mod Records
pub mod Journal
pub mod Crash
pub mod Glued
pub mod Queries
