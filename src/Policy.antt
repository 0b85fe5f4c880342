-- ===== src/Policy.antt =====
-- crates/policy: the capability kernel, the approval store, the votes of clients on an approval, and the merge and
-- visibility of policies and tools.
pub mod Approvals
pub mod Expiry
pub mod Evolution
pub mod Mediation
pub mod Votes
pub mod Kernel
pub mod Paths
pub mod Capabilities
pub mod Endpoints
pub mod Layers
