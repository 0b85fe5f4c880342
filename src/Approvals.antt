-- ===== src/Approvals.antt =====
-- crates/event-store/src/approvals.rs: the table of approvals; crates/core-runtime/src/scheduler.rs and one_agent.rs:
-- the gate at which a refused call waits for the operator.
pub mod Table
pub mod Gate
pub mod Decided
pub mod Gated
pub mod Widened
