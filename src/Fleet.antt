-- ===== src/Fleet.antt =====
-- crates/core-runtime/src/fleet_admission.rs: admission of subagents and the coordination of their work.
pub mod Governor
pub mod Issued
pub mod Admissions
pub mod Capacity
pub mod Coordination
