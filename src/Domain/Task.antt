-- ===== src/Domain/Task.antt =====
-- crates/domain/src/task.rs: the task aggregate's state machine and the fold of an event stream.
use Prim.Native.String.{String}
use zmodbit.Prelude.{List, [], ◌∷◌, Option, none, some, Result, ok, err}
use zmodbit.Domain.Events.{
  DomainEvent, WaitingReason, task_created, task_queued, task_started, task_waiting,
  task_ready_for_review, task_completed, task_failed, task_cancelled, task_steered,
  review_hunk_resolved, review_comment_added, goal_set, task_input_queued, external,
}

pub data TaskState : Type 0 where
  created queued running : TaskState
  waiting : (reason : WaitingReason) → TaskState
  ready_for_review completed failed cancelled : TaskState

pub record TransitionError : Type 0 where
  pub from : TaskState
  pub event : String

abbrev pub reject : TaskState → String → Result TransitionError TaskState
reject state event = err (record { from = state; event = event })

unfoldable pub resume_reason_of : DomainEvent → WaitingReason
resume_reason_of (task_waiting reason) = reason
resume_reason_of _ = external

-- One helper for each arm of the source's `match event`: the arm's `match state`.
abbrev on_queued : TaskState → Result TransitionError TaskState
on_queued created = ok queued
on_queued s = reject s "task_queued"

abbrev on_started : TaskState → Result TransitionError TaskState
on_started queued = ok running
on_started (waiting _) = ok running
on_started s = reject s "task_started"

abbrev on_waiting : WaitingReason → TaskState → Result TransitionError TaskState
on_waiting reason running = ok (waiting reason)
on_waiting reason s = reject s "task_waiting"

abbrev on_ready : TaskState → Result TransitionError TaskState
on_ready running = ok ready_for_review
on_ready (waiting _) = ok ready_for_review
on_ready s = reject s "task_ready_for_review"

abbrev on_completed : TaskState → Result TransitionError TaskState
on_completed ready_for_review = ok completed
on_completed s = reject s "task_completed"

abbrev on_failed : TaskState → Result TransitionError TaskState
on_failed running = ok failed
on_failed (waiting _) = ok failed
on_failed ready_for_review = ok failed
on_failed s = reject s "task_failed"

abbrev on_cancelled : TaskState → Result TransitionError TaskState
on_cancelled created = ok cancelled
on_cancelled queued = ok cancelled
on_cancelled running = ok cancelled
on_cancelled (waiting _) = ok cancelled
on_cancelled s = reject s "task_cancelled"

abbrev on_steered : TaskState → Result TransitionError TaskState
on_steered running = ok running
on_steered (waiting r) = ok (waiting r)
on_steered s = reject s "task_steered"

abbrev on_input : TaskState → Result TransitionError TaskState
on_input completed = reject completed "task_input_queued"
on_input failed = reject failed "task_input_queued"
on_input cancelled = reject cancelled "task_input_queued"
on_input s = ok s

abbrev pub on_review : String → TaskState → Result TransitionError TaskState
on_review event running = ok running
on_review event (waiting r) = ok (waiting r)
on_review event ready_for_review = ok ready_for_review
on_review event completed = ok completed
on_review event s = reject s event

abbrev on_created : TaskState → Result TransitionError TaskState
on_created created = ok created
on_created s = reject s "task_created"

unfoldable pub apply_task_event : TaskState → DomainEvent → Result TransitionError TaskState
unfolding resume_reason_of
apply_task_event s task_queued = on_queued s
apply_task_event s task_started = on_started s
apply_task_event s (task_waiting r) = on_waiting (resume_reason_of (task_waiting r)) s
apply_task_event s task_ready_for_review = on_ready s
apply_task_event s (task_completed _) = on_completed s
apply_task_event s (task_failed _ _) = on_failed s
apply_task_event s (task_cancelled _) = on_cancelled s
apply_task_event s (task_steered _) = on_steered s
apply_task_event s (goal_set _ _) = ok s
apply_task_event s (task_input_queued _ _ _) = on_input s
apply_task_event s (review_hunk_resolved _ _ _ _) = on_review "review_hunk_resolved" s
apply_task_event s (review_comment_added _ _ _ _) = on_review "review_comment_added" s
apply_task_event s (task_created _ _ _ _ _ _) = on_created s
apply_task_event s _ = reject s "non-task event"

-- The first event of a stream must create the task.
unfoldable pub first_event : DomainEvent → Result TransitionError TaskState
first_event (task_created _ _ _ _ _ _) = ok created
first_event _ = reject created "non-creation event first"

-- The body of `fold_task`'s loop.
unfoldable pub fold_step :
    Option (Result TransitionError TaskState) → DomainEvent → Result TransitionError TaskState
unfolding first_event
fold_step none e = first_event e
fold_step (some (ok s)) e = apply_task_event s e
fold_step (some (err x)) e = err x

unfoldable pub fold_from :
    Option (Result TransitionError TaskState)
    → List DomainEvent
    → Option (Result TransitionError TaskState)
unfolding fold_step
fold_from state [] = state
fold_from state (e ∷ es) = fold_from (some (fold_step state e)) es

-- `none` before creation.
unfoldable pub fold_task : List DomainEvent → Option (Result TransitionError TaskState)
unfolding fold_from
fold_task events = fold_from none events
