-- ===== src/Lib.antt =====
-- Modbit's core, modelled and verified. The runtime keeps everything durable in one event store: a command is planned
-- against the event streams, the planned events are numbered, inserted and projected to tables in one transaction,
-- and the state of a task is the fold of its stream. Beside the store stand the approvals that gate protected
-- effects, the receipts of these effects, the protocol journal and the write leases.
--
-- Parts and files:
--   Prelude          bytes as texts, lists, maps in key order, results, lines of a file
--   Domain           crates/domain/src: events.rs (Events), task.rs (Task), input_queue.rs (InputQueue), turn.rs,
--                    run_step.rs, run.rs, session.rs (Turn), commands.rs (Commands); Life is the documented lifecycle
--                    as a relation, with the moves that the code adds, History what follows for streams
--   EventStore       crates/event-store/src: the envelope (Envelope), projections.rs and the constraints of
--                    migrations.rs (Tables), store.rs (Append), commands.rs (Reads, Plan, Commands). Numbering,
--                    Rounds and Streams prove what append keeps, Folds and Hazards what plans do to a stream,
--                    Replay and Leaks how commands behave on repetition and rejection.
--                    write_scopes.rs (WriteScopes, Scopes, Held), the rebuild of the tables (Rebuild) against the
--                    appends and commands (Projected, Built, Written, Rebuilt, Referenced) and the rows against the folds of the
--                    streams (Labels, States), store.rs's verification (Verify, Verified)
--                    and paging reads (Paging, Resumed), leases.rs and the fenced append (Leases)
--   Checkpoint       crates/checkpoint/src: lease.rs (Lease), its guarantees (Fencing), delta.rs (Delta), lib.rs (Store)
--   Effects          crates/effects/src/lib.rs: the chain (Chain), the ledger file (Ledger), its guarantees (Links,
--                    Reopen)
--   ProtocolState    crates/protocol-state/src/lib.rs: records and queries (Records, Queries), the journal file
--                    (Journal) and its behaviour after a crash (Crash, Glued)
--   Policy           crates/policy/src: lib.rs (Kernel, Paths), approvals.rs (Approvals, Expiry, Evolution),
--                    mediation.rs (Mediation, Votes), capability_set.rs and admin_precedence.rs
--                    (Capabilities, Endpoints, Layers)
--   Workspace        crates/workspace/src: merge_transaction.rs (Merge), the Hoare rules of its operations (Merges) and
--                    runs of them (Transactions); lib.rs: paths (Paths), the file service (Files), patches and the
--                    match ladder (Patch), the change engine (Engine), revisions (Writes, Revisions, Rewrites), the ladder
--                    (Ladder) and transactions (Staging, Failures)
--   Fleet            crates/core-runtime/src/fleet_admission.rs: tickets and admission (Governor), which tickets are
--                    out (Issued, Admissions), the capacity of the pools (Capacity), the other parts (Coordination)
--   Tools            crates/tools/src/output_pagination.rs (Pages), crates/terminal/src/replay.rs (Tail)
--   Compaction       crates/compaction/src/lib.rs: epochs (Epochs, Invalidation) and manifests (Manifest)
--   Retrieval        crates/retrieval/src/merkle.rs (Merkle), its roots after an update (Drift)
--   Agents           crates/core-runtime/src/agent_fleet.rs: agents (Nodes, Fleet), the journal lines (Journal), what
--                    calls do (Calls), which agent a key names (Keys), restarts (Restart) and repeated calls (Replays)
--   Automation       crates/event-store/src/automations.rs (Rows), crates/core-runtime/src/automation.rs: the calendar
--                    (Calendar) against its rules (Years, Days), cron specs (Cron, Fields), ticks (Engine, Rounds, Once)
--   Approvals        crates/event-store/src/approvals.rs (Table, Decided); the gate of crates/core-runtime/src/scheduler.rs
--                    and the decision on a call in one_agent.rs (Gate, Gated, Widened)
--   Tests            runs at concrete inputs
--
-- How state corresponds. A struct is a record and an enum a data type with the source's names in snake case. A method
-- on `&mut self` takes the old state and returns the new one with its result; an error is a `Result`. The SQL tables
-- are the record `Store`, a list of rows each; a statement that breaks a constraint is an error. EventStore::append
-- and CommandProcessor::execute differ in what an error leaves behind, as in the source: append drops its transaction,
-- execute commits it. A file is the list of its bytes, or none when it does not exist.
--
-- Parameters. SHA-256 and the JSON codecs are arguments: `External` (digest of an envelope, decoding of a stored
-- payload), `RowReader` (parsing of printed UUIDs and of the JSON of a stored payload), `Fresh` (new identifiers and times), the hash of the receipt chain, and the codecs of receipts,
-- records and agents. Theorems that need it assume that a codec gives one non-empty line that decodes to the value, and that the
-- hash gives 64 hexadecimal digits; Tests instantiates both. The git operations of a merge transaction are the record
-- `Git`, of which nothing is assumed; the decimal rendering of a ticket number is assumed to be injective and without a
-- dash; that the identifiers of the log parse and its payloads decode to what was stored is a hypothesis of
-- the theorems on reading them.
--
-- Bounds. All loops of the source are structural recursions. The readers that ask for page after page (Resumed.follow,
-- Pages.read_pages) run on fuel: as many pages as cover the events, and one step for each byte, are enough. Event numbers (u64) are natural numbers, since a stream
-- cannot hold 2^64 events. Lease epochs are u64 with their wrap-around, and the theorem on released leases asks for
-- fewer than 2^64 calls.
--
-- The tree of a workspace has no symbolic links, and its directories are those that its files need; its files are valid
-- UTF-8. The own directory of the service, .modbit, is outside the tree. create and replace fail on directories and below
-- files as the source does; moves (of files) and the staging of transactions are modelled where no directory is in their
-- way, and the disk takes every write that these rules allow. The bytes of the protocol journal need not be UTF-8.
--
-- Not modelled: Display texts, clocks, mutexes (every method holds its lock throughout), the SQL engine beyond the
-- constraints of the tables used, invalid UTF-8 and read errors of files, and the
-- crates that are orchestration or I/O (scheduler and agent loop beyond the approval gate, providers, sandbox, browser, terminal processes, git, applications).
pub mod Prelude
pub mod Approvals
pub mod Domain
pub mod EventStore
pub mod Checkpoint
pub mod Effects
pub mod ProtocolState
pub mod Policy
pub mod Workspace
pub mod Fleet
pub mod Tools
pub mod Compaction
pub mod Retrieval
pub mod Agents
pub mod Automation
pub mod Tests
