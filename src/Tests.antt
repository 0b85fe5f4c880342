-- ===== src/Tests.antt =====
-- Tests at concrete inputs, and the instances of the theorems that have hypotheses.
mod UnaryCodec
mod RebuildTests
mod StoreTests
mod AgentTests
mod AutomationTests
mod CommandTests
mod LeaseTests
mod LedgerTests
mod JournalTests
mod PolicyTests
mod GateTests
mod ScopeTests
mod LayerTests
mod MergeTests
mod FilesTests
mod FleetTests
mod RecoveryTests
mod MerkleTests
