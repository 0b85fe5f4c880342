-- ===== src/Tests/StoreTests.antt =====
-- Runs of the task machine and the command processor at concrete inputs, and the instances of their theorems.
use zmodbit.Prelude.{◌≡◌, refl, true, none, some, List, [], ◌∷◌, ◌++◌, bytes, ok, ◌↔◌}
use zmodbit.Domain.Events.{
  DomainEvent, task_created, task_queued, task_started, task_ready_for_review, task_completed,
  goal_set, task_cancelled,
}
use zmodbit.Domain.Task.{completed, cancelled, apply_task_event, fold_task}
use zmodbit.Domain.Life.{Life, fold_task_iff}
use zmodbit.Domain.History.{Reviewed, completed-Reviewed}
use zmodbit.Domain.Turn

-- A task that is created, queued, started, reviewed and completed.
abbrev birth : DomainEvent
birth = task_created (bytes "s") (bytes "t") (bytes "p") none none none

abbrev happy : List DomainEvent
happy =
    birth ∷ task_queued ∷ task_started ∷ task_ready_for_review ∷ task_completed (bytes "done") ∷ []

happy_completes : fold_task happy ≡ some (ok completed)
unfolding fold_task apply_task_event
happy_completes = refl

fold_task_iff_example : (fold_task happy ≡ some (ok completed)) ↔ Life happy completed
fold_task_iff_example = fold_task_iff happy completed

completed-Reviewed_example : Reviewed happy
completed-Reviewed_example = completed-Reviewed happy happy_completes

abbrev dropped : List DomainEvent
dropped = birth ∷ task_cancelled (bytes "no") ∷ []

dropped_cancelled : fold_task dropped ≡ some (ok cancelled)
unfolding fold_task apply_task_event
dropped_cancelled = refl

dropped_goal : fold_task (dropped ++ goal_set (bytes "g") [] ∷ []) ≡ some (ok cancelled)
unfolding fold_task apply_task_event
dropped_goal = refl

abbrev turn_states : List Turn.TurnState
turn_states = Turn.streaming ∷ Turn.executing ∷ Turn.verifying ∷ Turn.completed ∷ []

turn_legal : Turn.legal Turn.prepared turn_states ≡ true
unfolding Turn.legal Turn.can_transition
turn_legal = refl
