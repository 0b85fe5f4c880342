-- ===== src/Domain/InputQueue.antt =====
-- crates/domain/src/input_queue.rs: the dispatch policy of typed user input, and its meeting with the task's
-- state machine. The text of a refusal is a rendering of the mode and the state, which the error keeps.
use Prim.Native.String.{String}
use zmodbit.Prelude.{Result, ok, err}
use zmodbit.Domain.Events.{InputMode, steer, collect, follow_up, side_question}
use zmodbit.Domain.Task.{
  TaskState, created, queued, running, waiting, ready_for_review, completed, cancelled,
}

pub data SteeringPolicy : Type 0 where
  interrupt_and_replace coalesce_after_current : SteeringPolicy
  ordered_separate_turns non_disruptive_snapshot : SteeringPolicy

unfoldable pub policy : InputMode → SteeringPolicy
policy steer = interrupt_and_replace
policy collect = coalesce_after_current
policy follow_up = ordered_separate_turns
policy side_question = non_disruptive_snapshot

unfoldable pub mode_as_str : InputMode → String
mode_as_str steer = "steer"
mode_as_str collect = "collect"
mode_as_str follow_up = "follow_up"
mode_as_str side_question = "side_question"

pub data InputEffect : Type 0 where
  redirects_task queued_after_current session_level_only : InputEffect

pub record InputError : Type 0 where
  pub mode : InputMode
  pub state : TaskState

abbrev pub refuse : InputMode → TaskState → Result InputError InputEffect
refuse mode state = err (record { mode = mode; state = state })

abbrev on_steer : TaskState → Result InputError InputEffect
on_steer running = ok redirects_task
on_steer (waiting _) = ok redirects_task
on_steer queued = ok redirects_task
on_steer other = refuse steer other

abbrev on_collect : TaskState → Result InputError InputEffect
on_collect running = ok queued_after_current
on_collect (waiting _) = ok queued_after_current
on_collect other = refuse collect other

abbrev on_follow_up : TaskState → Result InputError InputEffect
on_follow_up queued = ok queued_after_current
on_follow_up running = ok queued_after_current
on_follow_up (waiting _) = ok queued_after_current
on_follow_up ready_for_review = ok queued_after_current
on_follow_up other = refuse follow_up other

abbrev on_side_question : TaskState → Result InputError InputEffect
on_side_question created = refuse side_question created
on_side_question completed = refuse side_question completed
on_side_question cancelled = refuse side_question cancelled
on_side_question _ = ok session_level_only

unfoldable pub input_effect : TaskState → InputMode → Result InputError InputEffect
input_effect s steer = on_steer s
input_effect s collect = on_collect s
input_effect s follow_up = on_follow_up s
input_effect s side_question = on_side_question s
