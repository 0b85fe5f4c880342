-- ===== src/EventStore/Plan.antt =====
-- crates/event-store/src/commands.rs: the `match` of `plan_and_append`, which validates a command against the log
-- and stages its events.
use zmodbit.Prelude.{
  not, ◌&&◌, ◌||◌, Option, none, some, List, [], ◌∷◌, ℕ, ◌+◌, ◌-◌, Text, text_eq, any, last, length,
  leb, ltb, ◌==◌, Result, ok, err, ◌>>=◌, ◌>>◌, ensure, ok_or,
}
use zmodbit.Domain.Events.{
  AggregateType, InputMode, session, task, DomainEvent, session_created, task_created, task_steered,
  session_forked, session_rewound, goal_set, task_input_queued, side_question_asked,
}
use zmodbit.Domain.Task.{apply_task_event, fold_task}
use zmodbit.Domain.InputQueue.{InputEffect, redirects_task, input_effect}
use zmodbit.Domain.Commands.{
  CommandPayload, create_session, create_task, fork_session, rewind_session, set_goal,
  queue_task_input, ask_side_question, target_aggregate,
}
use zmodbit.EventStore.Envelope.{EventEnvelope, External, Fresh, envelope_for, seal}
use zmodbit.EventStore.Reads.{
  Reason, row_count, exists, load_task_events, task_session, current_state, is_goal,
  lifecycle_event, unverified, checked, accepted, session_sequence, source_stream_len, parse_all,
  session_missing, task_missing, no_target, self_certified, bad_fork, no_events, stale_hash,
  bad_rewind, unreachable,
}

module _ (x : External) (fresh : Fresh) where
  -- An envelope of a task's or a session's stream, numbered and sealed.
  abbrev pub numbered :
      Text → AggregateType → Text → Text → Option Text → ℕ → DomainEvent → EventEnvelope
  numbered event_id type id session_id task_id sequence payload =
      seal x (record (envelope_for event_id fresh.now type id session_id payload) {
        task_id = task_id;
        sequence = sequence;
      })

  unfoldable pub plan_create_task :
      List EventEnvelope → Text → DomainEvent → Result Reason (List EventEnvelope)
  plan_create_task events session_id created = do
    ensure (exists events session_id) session_missing
    ok (
        numbered fresh.first_event task fresh.aggregate session_id (some fresh.aggregate) 1 created
        ∷ [])

  -- A steer of the running task stages a second event.
  abbrev pub staged_steer : InputEffect → Text → Text → Text → ℕ → List EventEnvelope
  staged_steer redirects_task id session_id text n =
      numbered fresh.second_event task id session_id (some id) (n + 2) (task_steered text) ∷ []
  staged_steer _ id session_id text n = []

  unfoldable pub plan_input :
      List EventEnvelope → Text → Text → InputMode → Text → Result Reason (List EventEnvelope)
  plan_input events id input_id mode text = do
    let history = load_task_events events id
    current ← current_state (fold_task history)
    effect ← checked (input_effect current mode)
    session_id ← task_session events id
    ok (
        numbered fresh.first_event task id session_id (some id) (length history + 1)
          (task_input_queued input_id mode text)
        ∷ staged_steer effect id session_id text (length history))

  unfoldable pub plan_side_question :
      List EventEnvelope → Text → DomainEvent → Result Reason (List EventEnvelope)
  plan_side_question events session_id asked = do
    ensure (exists events session_id) session_missing
    ok (
        numbered fresh.first_event session session_id session_id none
          (session_sequence events session_id + 1) asked
        ∷ [])

  unfoldable pub plan_goal :
      List EventEnvelope → Text → DomainEvent → Result Reason (List EventEnvelope)
  plan_goal events id goal = do
    ensure (exists events id) task_missing
    session_id ← task_session events id
    ok (numbered fresh.first_event task id session_id (some id) (row_count events id + 1) goal ∷ [])

  unfoldable pub plan_fork :
      List EventEnvelope → Text → ℕ → DomainEvent → Result Reason (List EventEnvelope)
  plan_fork events source at_sequence forked = do
    ensure (not (at_sequence == 0 || ltb (source_stream_len events source) at_sequence)) bad_fork
    ok (numbered fresh.first_event session fresh.aggregate fresh.aggregate none 1 forked ∷ [])

  unfoldable pub plan_rewind :
      List EventEnvelope → Text → ℕ → Text → Result Reason (List EventEnvelope)
  plan_rewind events id to_sequence expected_last_hash = do
    stream ← parse_all x (load_task_events events id)
    final ← ok_or (last stream) no_events
    ensure (text_eq final.integrity_hash expected_last_hash) stale_hash
    ensure (not (to_sequence == 0 || leb final.sequence to_sequence)) bad_rewind
    ok (
        numbered fresh.first_event session id id none (final.sequence + 1)
          (session_rewound to_sequence (final.sequence - to_sequence) final.integrity_hash)
        ∷ [])

  unfoldable pub plan_lifecycle :
      List EventEnvelope → CommandPayload → Text → Result Reason (List EventEnvelope)
  plan_lifecycle events payload id = do
    let history = load_task_events events id
    current ← current_state (fold_task history)
    ensure (not (unverified payload && any is_goal history)) self_certified
    event ← ok_or (lifecycle_event payload) unreachable
    next ← accepted (apply_task_event current event)
    session_id ← task_session events id
    ok (numbered fresh.first_event task id session_id (some id) (length history + 1) event ∷ [])

  unfoldable pub plan_targeted :
      List EventEnvelope → CommandPayload → Option Text → Result Reason (List EventEnvelope)
  plan_targeted events payload none = err no_target
  plan_targeted events payload (some id) = plan_lifecycle events payload id

  -- The `match` of `plan_and_append`: the events that a command stages.
  unfoldable pub plan : List EventEnvelope → CommandPayload → Result Reason (List EventEnvelope)
  unfolding plan_create_task plan_input plan_side_question plan_goal plan_fork plan_rewind
      plan_lifecycle plan_targeted
  plan events (create_session name) = ok (
      numbered fresh.first_event session fresh.aggregate fresh.aggregate none 1
        (session_created name)
      ∷ [])
  plan events (create_task session_id title prompt repo_id base_branch parent_task_id) =
      plan_create_task events session_id
        (task_created session_id title prompt repo_id base_branch parent_task_id)
  plan events (queue_task_input id input_id mode text) = plan_input events id input_id mode text
  plan events (ask_side_question session_id question_id question n) =
      plan_side_question events session_id (side_question_asked question_id question n)
  plan events (set_goal id objective criteria) = plan_goal events id (goal_set objective criteria)
  plan events (fork_session source at_sequence decisions evidence) =
      plan_fork events source at_sequence (session_forked source at_sequence decisions evidence)
  plan events (rewind_session id to_sequence hash) = plan_rewind events id to_sequence hash
  plan events payload = plan_targeted events payload (target_aggregate payload)
