-- ===== src/Workspace.antt =====
-- crates/workspace: the file service with its ledger of revisions, patches and transactions on files, and merge
-- transactions over a git repository.
pub mod Merge
pub mod Merges
pub mod Transactions
pub mod Paths
pub mod Files
pub mod Patch
pub mod Engine
pub mod Writes
pub mod Revisions
pub mod Rewrites
pub mod Ladder
pub mod Staging
pub mod Failures
