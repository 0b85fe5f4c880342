-- ===== src/Domain.antt =====
-- crates/domain: the aggregates and their state machines.
pub mod Events
pub mod Task
pub mod Life
pub mod History
pub mod InputQueue
pub mod Turn
pub mod Commands
