-- ===== src/EventStore/Reads.antt =====
-- crates/event-store/src/commands.rs: the reasons and outcomes of a command, and what a command reads from the
-- log before it stages its events.
use zmodbit.Prelude.{
  Bool, true, false, not, Option, none, some, List, [], ◌∷◌, map, ℕ, Text, unwrap_or, retain,
  length, ltb, Result, ok, err, ◌>>=◌, ok_or,
}
use zmodbit.Domain.Events.{
  AggregateType, session, DomainEvent, task_queued, task_started, task_completed, task_failed,
  task_cancelled, task_steered, review_hunk_resolved, review_comment_added, goal_set,
}
use zmodbit.Domain.Task.{TaskState, TransitionError}
use zmodbit.Domain.InputQueue.{InputEffect, InputError}
use zmodbit.Domain.Commands.{
  CommandPayload, queue_task, start_task, complete_task, fail_task, cancel_task, steer_task,
  resolve_review_hunk, add_review_comment,
}
use zmodbit.EventStore.Envelope.{EventEnvelope, External}
use zmodbit.EventStore.Append.{StoreError, of_aggregate, max_sequence, load_stream}

-- The reasons of a rejection; the source renders each as a sentence.
pub data Reason : Type 0 where
  session_missing task_missing no_target self_certified bad_fork no_events bad_envelope : Reason
  stale_hash bad_rewind unreachable : Reason
  illegal : TransitionError → Reason
  input_refused : InputError → Reason
  storage : StoreError → Reason

pub data Outcome : Type 0 where
  applied : (event_ids : List Text) → Outcome
  replayed : (event_ids : List Text) → Outcome
  rejected : (reason : Reason) → Outcome
  -- "previously rejected (idempotent replay)"
  rejected_before : Outcome

-- `SELECT COUNT(*) FROM events WHERE aggregate_id = …`.
abbrev pub row_count : List EventEnvelope → Text → ℕ
row_count events id = length (of_aggregate id events)

abbrev pub exists : List EventEnvelope → Text → Bool
exists events id = ltb 0 (row_count events id)

abbrev pub load_task_events : List EventEnvelope → Text → List DomainEvent
load_task_events events id = map (λ e. e.payload) (load_stream events id)

-- `… WHERE aggregate_id = … ORDER BY sequence LIMIT 1`.
abbrev pub first_session : List EventEnvelope → Result Reason Text
first_session [] = err task_missing
first_session (e ∷ es) = ok e.session_id

abbrev pub task_session : List EventEnvelope → Text → Result Reason Text
task_session events id = first_session (load_stream events id)

abbrev pub current_state : Option (Result TransitionError TaskState) → Result Reason TaskState
current_state none = err task_missing
current_state (some (ok s)) = ok s
current_state (some (err e)) = err (illegal e)

abbrev pub is_goal : DomainEvent → Bool
is_goal (goal_set _ _) = true
is_goal _ = false

unfoldable pub lifecycle_event : CommandPayload → Option DomainEvent
lifecycle_event (queue_task _) = some task_queued
lifecycle_event (start_task _) = some task_started
lifecycle_event (CommandPayload.task_waiting _ reason) = some (DomainEvent.task_waiting reason)
lifecycle_event (CommandPayload.task_ready_for_review _) = some DomainEvent.task_ready_for_review
lifecycle_event (complete_task _ summary _) = some (task_completed summary)
lifecycle_event (fail_task _ code message) = some (task_failed code message)
lifecycle_event (cancel_task _ reason) = some (task_cancelled reason)
lifecycle_event (steer_task _ note) = some (task_steered note)
lifecycle_event (resolve_review_hunk _ path start accepted revision) =
    some (review_hunk_resolved path start accepted revision)
lifecycle_event (add_review_comment _ path start body revision) =
    some (review_comment_added path start body revision)
lifecycle_event _ = none

-- A completion that the host has not verified.
abbrev pub unverified : CommandPayload → Bool
unverified (complete_task _ _ host_verified) = not host_verified
unverified _ = false

abbrev pub checked : Result InputError InputEffect → Result Reason InputEffect
checked (ok e) = ok e
checked (err e) = err (input_refused e)

abbrev pub accepted : Result TransitionError TaskState → Result Reason TaskState
accepted (ok s) = ok s
accepted (err e) = err (illegal e)

abbrev pub is_session : AggregateType → Bool
is_session session = true
is_session _ = false

-- The rows of an aggregate that are typed as a session's.
abbrev pub session_rows : List EventEnvelope → Text → List EventEnvelope
session_rows events id = retain (λ e. is_session e.aggregate_type) (of_aggregate id events)

abbrev pub session_sequence : List EventEnvelope → Text → ℕ
session_sequence events id = unwrap_or (max_sequence (session_rows events id)) 0

abbrev pub source_stream_len : List EventEnvelope → Text → ℕ
source_stream_len events id = length (session_rows events id)

-- `load_session_envelopes`: each stored payload is decoded as a whole envelope.
abbrev pub parse_all : External → List DomainEvent → Result Reason (List EventEnvelope)
parse_all x [] = ok []
parse_all x (p ∷ ps) = do
  e ← ok_or (x.parse_envelope p) bad_envelope
  es ← parse_all x ps
  ok (e ∷ es)
