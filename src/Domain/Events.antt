-- ===== src/Domain/Events.antt =====
-- crates/domain/src/events.rs: the domain events, with the source's payloads. Identifiers and free text are
-- byte lists, fixed labels are literals, and the `f64` cost is carried as its 64 bits.
use Prim.Native.String.{String}
use text.Mathlib.Text.{◌==◌ as str_eq}
use text.Mathlib.TextEquality.{eq_iff}
use zmodbit.Prelude.{ℕ, ◌≡◌, ◌↔◌, Bool, Option, none, some, List, arith, Text, if◌then◌else◌}

pub data AggregateType : Type 0 where
  session task run turn run_step : AggregateType

unfoldable pub aggregate_as_str : AggregateType → String
aggregate_as_str session = "session"
aggregate_as_str task = "task"
aggregate_as_str run = "run"
aggregate_as_str turn = "turn"
aggregate_as_str run_step = "run_step"

pub data ActorType : Type 0 where
  system user agent : ActorType

unfoldable pub actor_as_str : ActorType → String
actor_as_str system = "system"
actor_as_str user = "user"
actor_as_str agent = "agent"

unfoldable pub actor_parse : String → Option ActorType
actor_parse s =
    if str_eq s "system"
    then some system
    else if str_eq s "user"
    then some user
    else if str_eq s "agent"
    then some agent
    else none

pub record Actor : Type 0 where
  pub actor_type : ActorType
  pub actor_id : Text

pub data WaitingReason : Type 0 where
  user_input approval capacity external provider : WaitingReason

pub data StepType : Type 0 where
  context_compile model_invoke tool_call procedure_run approval_wait verification : StepType
  checkpoint handoff user_question : StepType

unfoldable pub step_as_str : StepType → String
step_as_str context_compile = "context_compile"
step_as_str model_invoke = "model_invoke"
step_as_str tool_call = "tool_call"
step_as_str procedure_run = "procedure_run"
step_as_str approval_wait = "approval_wait"
step_as_str verification = "verification"
step_as_str checkpoint = "checkpoint"
step_as_str handoff = "handoff"
step_as_str user_question = "user_question"

-- crates/domain/src/input_queue.rs, the mode of a queued input.
pub data InputMode : Type 0 where
  steer collect follow_up side_question : InputMode

pub data DomainEvent : Type 0 where
  session_created : (display_name : Text) → DomainEvent
  task_created :
      (session_id title prompt : Text) (repo_id base_branch parent_task_id : Option Text)
      → DomainEvent
  task_queued : DomainEvent
  task_started : DomainEvent
  task_waiting : (reason : WaitingReason) → DomainEvent
  task_ready_for_review : DomainEvent
  task_completed : (summary : Text) → DomainEvent
  task_failed : (failure_code message : Text) → DomainEvent
  task_cancelled : (reason : Text) → DomainEvent
  task_steered : (steer_note : Text) → DomainEvent
  review_hunk_resolved :
      (path : Text) (new_start : ℕ) (accepted : Bool) (revision : Text) → DomainEvent
  review_comment_added : (path : Text) (new_start : ℕ) (body revision : Text) → DomainEvent
  run_started : (task_id : Text) (attempt : ℕ) → DomainEvent
  run_completed : DomainEvent
  run_cost_recorded :
      (task_id model : Text)
      (invocations input_tokens output_tokens cost_usd unpriced_invocations : ℕ)
      → DomainEvent
  run_failed : (failure_code : Text) → DomainEvent
  turn_prepared : (run_id : Text) (ordinal : ℕ) → DomainEvent
  turn_completed : DomainEvent
  turn_failed : (failure_code : Text) → DomainEvent
  run_step_prepared : (turn_id : Text) (step_type : StepType) (ordinal : ℕ) → DomainEvent
  run_step_completed : DomainEvent
  run_step_failed : (failure_code : Text) → DomainEvent
  compaction_applied :
      (turn_id epoch_id : Text) (affected_messages reclaimed_tokens : ℕ) (manifest_digest : Text)
      → DomainEvent
  conversation_checkpointed : (turn_ordinal : ℕ) (conversation_json : Text) → DomainEvent
  worktree_checkpointed : (epoch : ℕ) (journal_json : Text) → DomainEvent
  tool_output_chunk : (broker_run_id : Text) (offset byte_length : ℕ) (preview : Text) → DomainEvent
  session_forked :
      (source_session : Text) (at_sequence : ℕ)
      (carried_decisions carried_evidence_refs : List Text)
      → DomainEvent
  session_rewound : (to_sequence reverted_event_count : ℕ) (previous_last_hash : Text) → DomainEvent
  goal_set : (objective : Text) (acceptance_criteria : List Text) → DomainEvent
  task_input_queued : (input_id : Text) (mode : InputMode) (text : Text) → DomainEvent
  side_question_asked : (question_id question : Text) (context_event_count : ℕ) → DomainEvent
  index_updated :
      (reason : Text) (workspace_revision file_count : ℕ) (root_digest : Text)
      (recomputed : List Text) (recomputed_truncated : Bool)
      → DomainEvent

unfoldable pub event_type_of : DomainEvent → String
event_type_of (session_created _) = "session_created"
event_type_of (task_created _ _ _ _ _ _) = "task_created"
event_type_of task_queued = "task_queued"
event_type_of task_started = "task_started"
event_type_of (task_waiting _) = "task_waiting"
event_type_of task_ready_for_review = "task_ready_for_review"
event_type_of (task_completed _) = "task_completed"
event_type_of (task_failed _ _) = "task_failed"
event_type_of (task_cancelled _) = "task_cancelled"
event_type_of (task_steered _) = "task_steered"
event_type_of (review_hunk_resolved _ _ _ _) = "review_hunk_resolved"
event_type_of (review_comment_added _ _ _ _) = "review_comment_added"
event_type_of (run_started _ _) = "run_started"
event_type_of run_completed = "run_completed"
event_type_of (run_cost_recorded _ _ _ _ _ _ _) = "run_cost_recorded"
event_type_of (run_failed _) = "run_failed"
event_type_of (turn_prepared _ _) = "turn_prepared"
event_type_of turn_completed = "turn_completed"
event_type_of (turn_failed _) = "turn_failed"
event_type_of (run_step_prepared _ _ _) = "run_step_prepared"
event_type_of run_step_completed = "run_step_completed"
event_type_of (run_step_failed _) = "run_step_failed"
event_type_of (compaction_applied _ _ _ _ _) = "compaction_applied"
event_type_of (conversation_checkpointed _ _) = "conversation_checkpointed"
event_type_of (tool_output_chunk _ _ _ _) = "tool_output_chunk"
event_type_of (worktree_checkpointed _ _) = "worktree_checkpointed"
event_type_of (session_forked _ _ _ _) = "session_forked"
event_type_of (session_rewound _ _ _) = "session_rewound"
event_type_of (goal_set _ _) = "goal_set"
event_type_of (task_input_queued _ _ _) = "task_input_queued"
event_type_of (side_question_asked _ _ _) = "side_question_asked"
event_type_of (index_updated _ _ _ _ _ _) = "index_updated"

-- `parse` accepts exactly the labels that `as_str` writes, and reads each back as its own actor type.
pub actor_parse_iff : (s : String) (a : ActorType) → (actor_parse s ≡ some a) ↔ (s ≡ actor_as_str a)
unfolding actor_parse actor_as_str
actor_parse_iff s system = ground (
  arith,
  eq_iff s "system",
  eq_iff s "user",
  eq_iff s "agent",
  eq_iff "system" "user",
  eq_iff "system" "agent",
  eq_iff "user" "agent",
)
actor_parse_iff s user = ground (
  arith,
  eq_iff s "system",
  eq_iff s "user",
  eq_iff s "agent",
  eq_iff "user" "system",
  eq_iff "user" "agent",
)
actor_parse_iff s agent = ground (
  arith,
  eq_iff s "system",
  eq_iff s "user",
  eq_iff s "agent",
  eq_iff "agent" "system",
  eq_iff "agent" "user",
)
