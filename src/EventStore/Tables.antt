-- ===== src/EventStore/Tables.antt =====
-- crates/event-store/src/projections.rs over the tables of migrations.rs. A table is the list of its rows in
-- insertion order; a statement that breaks a PRIMARY KEY, a UNIQUE or a REFERENCES clause is an error that
-- changes nothing. Columns that no statement of these modules writes are left out.
use Prim.Native.String.{String}
use zmodbit.Prelude.{
  not, ◌&&◌, Option, none, some, List, ◌++◌, map, ℕ, Text, text_eq, bytes, Map, any, push,
  if◌then◌else◌, ◌==◌, Result, ok, ◌>>◌, ensure,
}
use zmodbit.Domain.Events.{
  WaitingReason, user_input, approval, capacity, external, provider, session, task, run, turn,
  run_step, DomainEvent, session_created, task_created, task_queued, task_started, task_waiting,
  task_ready_for_review, task_completed, task_failed, task_cancelled, task_steered,
  task_input_queued,
}
use zmodbit.Domain.InputQueue.{mode_as_str}
use zmodbit.EventStore.Envelope.{EventEnvelope}

pub record SessionRow : Type 0 where
  pub session_id : Text
  pub state : String
  pub generation : ℕ
  pub created_at : Text
  pub updated_at : Text
  pub last_event_sequence : ℕ

pub record TaskRow : Type 0 where
  pub task_id : Text
  pub session_id : Text
  pub goal_text : Text
  pub state : String
  pub generation : ℕ
  pub created_at : Text
  pub started_at : Option Text
  pub completed_at : Option Text
  pub failure_code : Option Text
  pub parent_task_id : Option Text

pub record InputRow : Type 0 where
  pub input_id : Text
  pub task_id : Text
  pub mode : String
  pub text : Text
  pub sequence : ℕ
  pub state : String

pub data LogStatus : Type 0 where
  logged_applied logged_rejected : LogStatus

pub record LogEntry : Type 0 where
  pub command_type : String
  pub status : LogStatus
  pub result_event_ids : List Text

pub record Store : Type 0 where
  pub events : List EventEnvelope
  pub command_log : Map LogEntry
  pub sessions : List SessionRow
  pub tasks : List TaskRow
  pub task_inputs : List InputRow

-- A constraint of a table that a statement breaks.
pub data SqlError : Type 0 where
  duplicate_event duplicate_session duplicate_task duplicate_input : SqlError
  no_such_session no_such_task still_referenced : SqlError

-- `format!("waiting_{:?}", reason).to_lowercase()`.
unfoldable pub waiting_label : WaitingReason → String
waiting_label user_input = "waiting_userinput"
waiting_label approval = "waiting_approval"
waiting_label capacity = "waiting_capacity"
waiting_label external = "waiting_external"
waiting_label provider = "waiting_provider"

-- `UPDATE tasks SET … WHERE task_id = …`.
unfoldable pub update_tasks : Text → (TaskRow → TaskRow) → Store → Store
update_tasks id f s = record s {
  tasks = map (λ r. if text_eq r.task_id id then f r else r) s.tasks;
}

unfoldable pub task_state : EventEnvelope → String → Store → Store
task_state e state =
    update_tasks e.aggregate_id λ r. record r { state = state; generation = e.sequence }

unfoldable pub task_state_with_completion : EventEnvelope → String → Store → Store
task_state_with_completion e state =
    update_tasks e.aggregate_id
      λ r. record r { state = state; completed_at = some e.occurred_at; generation = e.sequence }

-- `COALESCE(started_at, ?2)`.
abbrev coalesce : Option Text → Text → Option Text
coalesce none now = some now
coalesce (some t) now = some t

insert_session : EventEnvelope → Store → Result SqlError Store
insert_session e s = do
  ensure (not (any (λ r. text_eq r.session_id e.aggregate_id) s.sessions)) duplicate_session
  ok (record s { sessions = push s.sessions row })
  where
    row : SessionRow
    row = record {
      session_id = e.aggregate_id;
      state = "active";
      generation = e.sequence;
      created_at = e.occurred_at;
      updated_at = e.occurred_at;
      last_event_sequence = e.sequence;
    }

insert_task : EventEnvelope → Text → Text → Option Text → Store → Result SqlError Store
insert_task e title prompt parent_task_id s = do
  ensure (not (any (λ r. text_eq r.task_id e.aggregate_id) s.tasks)) duplicate_task
  ensure (any (λ r. text_eq r.session_id e.session_id) s.sessions) no_such_session
  ok (record s { tasks = push s.tasks row })
  where
    row : TaskRow
    row = record {
      task_id = e.aggregate_id;
      session_id = e.session_id;
      goal_text = title ++ bytes "\n" ++ prompt;
      state = "created";
      generation = e.sequence;
      created_at = e.occurred_at;
      started_at = none;
      completed_at = none;
      failure_code = none;
      parent_task_id = parent_task_id;
    }

insert_input : EventEnvelope → Text → String → Text → Store → Result SqlError Store
insert_input e input_id mode text s = do
  ensure (not (any (λ r. text_eq r.input_id input_id) s.task_inputs)) duplicate_input
  ensure
      (not (any (λ r. text_eq r.task_id e.aggregate_id && r.sequence == e.sequence) s.task_inputs))
      duplicate_input
  ensure (any (λ r. text_eq r.task_id e.aggregate_id) s.tasks) no_such_task
  ok (record s { task_inputs = push s.task_inputs row })
  where
    row : InputRow
    row = record {
      input_id = input_id;
      task_id = e.aggregate_id;
      mode = mode;
      text = text;
      sequence = e.sequence;
      state = "pending";
    }

unfoldable pub project_session : EventEnvelope → Store → DomainEvent → Result SqlError Store
unfolding insert_session
project_session e s (session_created _) = insert_session e s
project_session e s _ = ok s

-- An `UPDATE` that meets no row changes nothing, so the second one of the `TaskStarted` arm has no effect.
unfoldable pub project_task : EventEnvelope → Store → DomainEvent → Result SqlError Store
unfolding insert_task insert_input update_tasks task_state task_state_with_completion
project_task e s (task_created _ title prompt _ _ parent) = insert_task e title prompt parent s
project_task e s task_queued = ok (task_state e "queued" s)
project_task e s task_started = ok (update_tasks e.aggregate_id started s)
  where
    started : TaskRow → TaskRow
    started r = record r {
      state = "running";
      started_at = coalesce r.started_at e.occurred_at;
      generation = e.sequence;
    }
project_task e s (task_waiting reason) = ok (task_state e (waiting_label reason) s)
project_task e s task_ready_for_review = ok (task_state e "ready_for_review" s)
project_task e s (task_completed _) = ok (task_state_with_completion e "completed" s)
project_task e s (task_failed code _) = ok (
    update_tasks e.aggregate_id (λ r. record r { failure_code = some code })
      (task_state_with_completion e "failed" s))
project_task e s (task_cancelled _) = ok (task_state_with_completion e "cancelled" s)
project_task e s (task_steered _) =
    ok (update_tasks e.aggregate_id (λ r. record r { generation = e.sequence }) s)
project_task e s (task_input_queued input_id mode text) =
    insert_input e input_id (mode_as_str mode) text s
project_task e s _ = ok s

unfoldable pub project : EventEnvelope → Store → Result SqlError Store
unfolding project_session project_task
project e s = elim e.aggregate_type [
  | session ↦ project_session e s e.payload
  | task ↦ project_task e s e.payload
  | run ↦ ok s
  | turn ↦ ok s
  | run_step ↦ ok s
]
