-- ===== src/Agents/Nodes.antt =====
-- crates/core-runtime/src/agent_fleet.rs: the data of a fleet. A set of texts is a list; the texts of results and the
-- quotes in error texts are left out.
use zmodbit.Prelude.{Option, Bool, false, ℕ, List, [], Text, bytes, Map}

pub data AgentStatus : Type 0 where
  foreground background parked completed cancelled : AgentStatus

-- The name that the derived `Debug` prints.
abbrev pub debug_status : AgentStatus → Text
debug_status foreground = bytes "Foreground"
debug_status background = bytes "Background"
debug_status parked = bytes "Parked"
debug_status completed = bytes "Completed"
debug_status cancelled = bytes "Cancelled"

pub record AgentExecutionCapsule : Type 0 where
  pub allowed_tools : List Text
  pub context_refs : List Text
  pub model_policy : Text
  pub max_output_tokens : ℕ
  pub max_tool_calls : ℕ
  pub can_request_expansion : Bool

abbrev pub default_capsule : AgentExecutionCapsule
default_capsule = record {
  allowed_tools = [];
  context_refs = [];
  model_policy = bytes "task-scoped";
  max_output_tokens = 4096;
  max_tool_calls = 32;
  can_request_expansion = false;
}

pub data SteerCommand : Type 0 where
  steer : (instruction : Text) → SteerCommand
  cancel : (reason : Text) → SteerCommand
  follow_up : (question : Text) → SteerCommand

pub record AgentNode : Type 0 where
  pub agent_id : Text
  pub parent : Option Text
  pub root : Text
  pub task : Text
  pub status : AgentStatus
  pub tool_cursor : ℕ
  pub context_refs : List Text
  pub capsule : AgentExecutionCapsule
  pub idempotency_key : Option Text
  pub task_id : Text
  pub write_scope : List Text

-- `panicked` stands for a panic, which the source has where it indexes a map by a key that is not there.
pub data FleetError : Type 0 where
  persistence panicked : FleetError
  unknown_agent : Text → FleetError
  cannot_steal_completed : Text → FleetError
  privilege_expansion_refused : (agent effect : Text) → FleetError
  unknown_context_ref : (agent context_ref : Text) → FleetError

-- The journal is none for a fleet in memory, and otherwise its file: the bytes, or none before the first line.
pub record AgentFleet : Type 0 where
  pub nodes : Map AgentNode
  pub idempotency : Map Text
  pub journal : Option (Option Text)
