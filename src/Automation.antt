-- ===== src/Automation.antt =====
-- crates/core-runtime/src/automation.rs: the calendar of the cron triggers, cron specs, and the ticks of the engine.
pub mod Calendar
pub mod Years
pub mod Days
pub mod Cron
pub mod Fields
pub mod Rows
pub mod Engine
pub mod Rounds
pub mod Once
