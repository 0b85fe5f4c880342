-- ===== src/Agents.antt =====
-- crates/core-runtime/src/agent_fleet.rs: the agents with their lineage, and the journal that holds them.
pub mod Nodes
pub mod Fleet
pub mod Journal
pub mod Calls
pub mod Keys
pub mod Restart
pub mod Replays
