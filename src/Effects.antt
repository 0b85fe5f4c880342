-- ===== src/Effects.antt =====
-- crates/effects: the hash chain of effect receipts and its ledger file.
pub mod Chain
pub mod Links
pub mod Ledger
pub mod Reopen
