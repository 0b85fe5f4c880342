-- ===== src/Domain/Commands.antt =====
-- crates/domain/src/commands.rs: the mutating commands. Their `task_id` and `session_id` are the texts of the
-- identifiers.
use Prim.Native.String.{String}
use zmodbit.Prelude.{ℕ, Bool, List, Option, none, some, Text}
use zmodbit.Domain.Events.{WaitingReason, InputMode, Actor}

pub data CommandPayload : Type 0 where
  create_session : (display_name : Text) → CommandPayload
  create_task :
      (session_id title prompt : Text) (repo_id base_branch parent_task_id : Option Text)
      → CommandPayload
  queue_task : (task_id : Text) → CommandPayload
  start_task : (task_id : Text) → CommandPayload
  task_waiting : (task_id : Text) (reason : WaitingReason) → CommandPayload
  task_ready_for_review : (task_id : Text) → CommandPayload
  complete_task : (task_id summary : Text) (host_verified : Bool) → CommandPayload
  fail_task : (task_id failure_code message : Text) → CommandPayload
  cancel_task : (task_id reason : Text) → CommandPayload
  steer_task : (task_id steer_note : Text) → CommandPayload
  fork_session :
      (source_session : Text) (at_sequence : ℕ)
      (carried_decisions carried_evidence_refs : List Text)
      → CommandPayload
  rewind_session :
      (session_id : Text) (to_sequence : ℕ) (expected_last_hash : Text) → CommandPayload
  set_goal : (task_id objective : Text) (acceptance_criteria : List Text) → CommandPayload
  queue_task_input : (task_id input_id : Text) (mode : InputMode) (text : Text) → CommandPayload
  ask_side_question :
      (session_id question_id question : Text) (context_event_count : ℕ) → CommandPayload
  resolve_review_hunk :
      (task_id path : Text) (new_start : ℕ) (accepted : Bool) (revision : Text) → CommandPayload
  add_review_comment : (task_id path : Text) (new_start : ℕ) (body revision : Text) → CommandPayload

pub record Command : Type 0 where
  pub command_id : Text
  pub actor : Actor
  pub payload : CommandPayload

-- The aggregate that a command targets; `none` for a command that makes a new one.
unfoldable pub target_aggregate : CommandPayload → Option Text
target_aggregate (create_session _) = none
target_aggregate (create_task _ _ _ _ _ _) = none
target_aggregate (queue_task i) = some i
target_aggregate (start_task i) = some i
target_aggregate (task_waiting i _) = some i
target_aggregate (task_ready_for_review i) = some i
target_aggregate (complete_task i _ _) = some i
target_aggregate (fail_task i _ _) = some i
target_aggregate (cancel_task i _) = some i
target_aggregate (steer_task i _) = some i
target_aggregate (fork_session i _ _ _) = some i
target_aggregate (rewind_session i _ _) = some i
target_aggregate (set_goal i _ _) = some i
target_aggregate (queue_task_input i _ _ _) = some i
target_aggregate (ask_side_question i _ _ _) = some i
target_aggregate (resolve_review_hunk i _ _ _ _) = some i
target_aggregate (add_review_comment i _ _ _ _) = some i

unfoldable pub kind : CommandPayload → String
kind (create_session _) = "create_session"
kind (create_task _ _ _ _ _ _) = "create_task"
kind (queue_task _) = "queue_task"
kind (start_task _) = "start_task"
kind (task_waiting _ _) = "task_waiting"
kind (task_ready_for_review _) = "task_ready_for_review"
kind (complete_task _ _ _) = "complete_task"
kind (fail_task _ _ _) = "fail_task"
kind (cancel_task _ _) = "cancel_task"
kind (steer_task _ _) = "steer_task"
kind (fork_session _ _ _ _) = "fork_session"
kind (rewind_session _ _ _) = "rewind_session"
kind (set_goal _ _ _) = "set_goal"
kind (queue_task_input _ _ _ _) = "queue_task_input"
kind (ask_side_question _ _ _ _) = "ask_side_question"
kind (resolve_review_hunk _ _ _ _ _) = "resolve_review_hunk"
kind (add_review_comment _ _ _ _ _) = "add_review_comment"
