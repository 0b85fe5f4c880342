-- ===== src/EventStore.antt =====
-- crates/event-store: the durable event log, its projections and the command processor.
pub mod Envelope
pub mod Tables
pub mod WriteScopes
pub mod Scopes
pub mod Held
pub mod Rebuild
pub mod Projected
pub mod Verify
pub mod Verified
pub mod Leases
pub mod Paging
pub mod Resumed
pub mod Built
pub mod Written
pub mod Rebuilt
pub mod Referenced
pub mod Labels
pub mod States
pub mod Append
pub mod Numbering
pub mod Rounds
pub mod Streams
pub mod Reads
pub mod Plan
pub mod Commands
pub mod Replay
pub mod Folds
pub mod Hazards
pub mod Leaks
