-- ===== src/Tests/CommandTests.antt =====
-- A store that commands have filled, and the instances of the processor's theorems at it.
use zmodbit.Prelude.{
  ◌≡◌, refl, true, none, some, List, [], ◌++◌, Text, bytes, Result, ok, err, get, insert, text_eq,
  text_lt, any, Bool-cases, inl, inr, text_eq_iff,
}
use zmodbit.Domain.Events.{DomainEvent, steer, follow_up, system}
use zmodbit.Domain.Task.{TaskState, TransitionError, queued, apply_task_event, fold_task}
use zmodbit.Domain.InputQueue.{input_effect}
use zmodbit.Domain.Commands.{
  CommandPayload, Command, create_session, create_task, queue_task, queue_task_input, set_goal,
  target_aggregate, start_task,
}
use zmodbit.EventStore.Envelope.{
  EventEnvelope, External, Fresh, seal, envelope_for, verify_integrity, compute_integrity_hash,
}
use zmodbit.EventStore.Tables.{Store, project}
use zmodbit.EventStore.Append.{
  StoreError, load_stream, insert_event, next_sequence, append, append_one, of_aggregate,
}
use zmodbit.EventStore.Numbering.{IsGapless}
use zmodbit.EventStore.Streams.{append-IsGapless}
use zmodbit.EventStore.Reads.{Reason, load_task_events, lifecycle_event, is_goal}
use zmodbit.EventStore.Plan.{plan}
use zmodbit.EventStore.Commands.{execute}
use zmodbit.EventStore.Replay.{retried, execute-execute}
use zmodbit.Prelude.{◌↔◌, false}
use zmodbit.EventStore.Folds.{payloads, poisons}
use zmodbit.EventStore.Hazards.{plan-poisons, plan-Accepted_iff}

abbrev ext : External
ext = record { digest = λ e. e.event_id; parse_envelope = λ p. none }

abbrev ids : Text → Text → Fresh
ids aggregate event = record {
  aggregate = aggregate;
  first_event = event;
  second_event = event ++ event;
  now = bytes "now";
}

abbrev command : Text → CommandPayload → Command
command id payload = record {
  command_id = id;
  actor = record { actor_type = system; actor_id = bytes "core" };
  payload = payload;
}

abbrev empty : Store
empty = record { events = []; command_log = []; sessions = []; tasks = []; task_inputs = [] }

-- A session `s` with a queued task `t` that has one input `i`.
filled : Store
unfolding execute insert_event project seal envelope_for verify_integrity compute_integrity_hash get
    insert text_eq text_lt load_stream fold_task apply_task_event next_sequence lifecycle_event
    target_aggregate input_effect
filled =
    let s1 =
      (execute ext (ids (bytes "s") (bytes "a")) (command (bytes "1") (create_session (bytes "n")))
        empty).1 in
    let s2 =
      (execute ext (ids (bytes "t") (bytes "b"))
        (command (bytes "2") (create_task (bytes "s") (bytes "t") (bytes "p") none none none))
        s1).1 in
    let s3 =
      (execute ext (ids (bytes "x") (bytes "c")) (command (bytes "3") (queue_task (bytes "t")))
        s2).1 in
    (execute ext (ids (bytes "x") (bytes "d"))
      (command (bytes "4") (queue_task_input (bytes "t") (bytes "i") follow_up (bytes "hi"))) s3).1

filled_queued : fold_task (load_task_events filled.events (bytes "t")) ≡ some (ok queued)
unfolding filled
filled_queued = refl

plan-poisons_example :
    (es : List EventEnvelope) × (r : TransitionError) × (plan ext
        (ids (bytes "x") (bytes "e"))
        filled.events
        (queue_task_input (bytes "t") (bytes "j") steer (bytes "go"))
      ≡ ok es)
    × ((later : List DomainEvent)
        → fold_task ((load_task_events filled.events (bytes "t") ++ payloads es) ++ later)
          ≡ some (err r))
plan-poisons_example =
    plan-poisons ext (ids (bytes "x") (bytes "e")) filled.events (bytes "t") (bytes "j")
      (bytes "go") steer queued filled_queued refl

abbrev fresh : Fresh
fresh = ids (bytes "x") (bytes "e")

abbrev staged_by : Result Reason (List EventEnvelope) → List EventEnvelope
staged_by (ok es) = es
staged_by (err r) = []

-- The event that starts the queued task.
started : List EventEnvelope
unfolding filled plan
started = staged_by (plan ext fresh filled.events (start_task (bytes "t")))

started_planned : plan ext fresh filled.events (start_task (bytes "t")) ≡ ok started
unfolding started
started_planned = refl

plan-Accepted_iff_example :
    ((t : TaskState) × (fold_task (load_task_events filled.events (bytes "t") ++ payloads started)
        ≡ some (ok t)))
    ↔ (poisons queued (start_task (bytes "t")) ≡ false)
plan-Accepted_iff_example =
    plan-Accepted_iff ext fresh filled.events (start_task (bytes "t")) (bytes "t") queued started
      refl (unfold target_aggregate in refl) filled_queued started_planned

retry : Command
retry = command (bytes "5") (queue_task_input (bytes "t") (bytes "i") follow_up (bytes "hi"))

filled-IsGapless : IsGapless filled.events
unfolding filled
filled-IsGapless id = elim (Bool-cases (text_eq (bytes "s") id)) [
  | inl s ↦ rw (← (text_eq_iff (bytes "s") id).0 s) (refl, tt)
  | inr s ↦ elim (Bool-cases (text_eq (bytes "t") id)) [
    | inl t ↦ rw (← (text_eq_iff (bytes "t") id).0 t) (refl, (refl, (refl, tt)))
    | inr t ↦ rw (s, t) tt
  ]
]

execute-execute_example :
    execute ext fresh retry (execute ext fresh retry filled).1
    ≡ (retried (execute ext fresh retry filled).0, (execute ext fresh retry filled).1)
execute-execute_example = execute-execute ext fresh fresh retry retry filled refl

-- The same task with a goal.
with_goal : Store
unfolding filled
with_goal =
    (execute ext (ids (bytes "x") (bytes "g"))
      (command (bytes "6") (set_goal (bytes "t") (bytes "o") [])) filled).1

with_goal_queued : fold_task (load_task_events with_goal.events (bytes "t")) ≡ some (ok queued)
unfolding with_goal
with_goal_queued = refl

with_goal_goal : any is_goal (load_task_events with_goal.events (bytes "t")) ≡ true
unfolding with_goal
with_goal_goal = refl

abbrev appended : Result StoreError Store → Store
appended (ok s) = s
appended (err e) = empty

-- The filled store after its task is started.
running_store : Store
unfolding filled started append append_one
running_store = appended (append ext started filled)

running_appended : append ext started filled ≡ ok running_store
unfolding running_store
running_appended = refl

append-IsGapless_example :
    IsGapless running_store.events
    × ((id : Text)
        → load_stream running_store.events id
          ≡ load_stream filled.events id ++ of_aggregate id started)
append-IsGapless_example =
    append-IsGapless ext started filled running_store filled-IsGapless running_appended
