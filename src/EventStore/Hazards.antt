-- ===== src/EventStore/Hazards.antt =====
-- crates/event-store/src/commands.rs: two inputs after which a task's stream cannot be folded any more, and a
-- rejected command whose event stays in the log.
use zmodbit.Prelude.{
  ◌≡◌, refl, ◌∙◌, ◌↔◌, true, false, Bool-cases, inl, inr, append_nil, some, List, [], ◌∷◌, ◌++◌,
  Text, ok, err, arith, length, ◌+◌,
}
use zmodbit.Domain.Events.{DomainEvent, InputMode, steer, side_question, task_input_queued, task}
use zmodbit.Domain.Task.{
  TaskState, TransitionError, queued, failed, apply_task_event, fold_task, fold_from,
}
use zmodbit.Domain.Life.{fold_task-append, fold_from_err}
use zmodbit.Domain.InputQueue.{
  InputEffect, redirects_task, session_level_only, input_effect, queued_after_current,
}
use zmodbit.Domain.Commands.{CommandPayload, queue_task_input, target_aggregate}
use zmodbit.EventStore.Envelope.{EventEnvelope, External, Fresh, seal, envelope_for}
use zmodbit.EventStore.Append.{load_stream}
use zmodbit.EventStore.Reads.{load_task_events, first_session, task_session}
use zmodbit.EventStore.Plan.{plan, plan_input, numbered, staged_steer}
use zmodbit.EventStore.Folds.{payloads, poisons, input_payloads, is_task_command, plan-Accepted}

pub first_session_of_folded :
    (l : List EventEnvelope) (s : TaskState)
    → fold_task (payloads l) ≡ some (ok s)
    → (i : Text) × (first_session l ≡ ok i)
unfolding fold_task fold_from
first_session_of_folded [] s h = cc
first_session_of_folded (e ∷ es) s h = (e.session_id, refl)

module _ (x : External) (f : Fresh) (events : List EventEnvelope) (id i t : Text) where
  abbrev pub history : List DomainEvent
  history = load_task_events events id

  -- The envelope of the input itself.
  abbrev pub input_event : Text → InputMode → EventEnvelope
  input_event sid m =
      numbered x f f.first_event task id sid (some id) (length history + 1)
        (task_input_queued i m t)

  pub plan_input-ok :
      (s : TaskState) (m : InputMode) (effect : InputEffect) (sid : Text)
      → fold_task history ≡ some (ok s)
      → input_effect s m ≡ ok effect
      → task_session events id ≡ ok sid
      → plan_input x f events id i m t
        ≡ ok (input_event sid m ∷ staged_steer x f effect id sid t (length history))
  unfolding plan_input
  plan_input-ok s m effect sid now e sess = rw (now, e, sess, plan_input)

  staged_payloads :
      (effect : InputEffect) (sid : Text) (m : InputMode)
      → payloads (input_event sid m ∷ staged_steer x f effect id sid t (length history))
        ≡ input_payloads effect i m t
  unfolding seal envelope_for
  staged_payloads redirects_task sid m = refl
  staged_payloads queued_after_current sid m = refl
  staged_payloads session_level_only sid m = refl

  poisoned :
      (s : TaskState) (m : InputMode) (effect : InputEffect) (r : TransitionError)
      → fold_task history ≡ some (ok s)
      → input_effect s m ≡ ok effect
      → fold_from (some (ok s)) (input_payloads effect i m t) ≡ some (err r)
      → (es : List EventEnvelope) × (plan x f events (queue_task_input id i m t) ≡ ok es)
        × (fold_task (history ++ payloads es) ≡ some (err r))
  unfolding plan
  poisoned s m effect r now e bad =
      let (sid, sess) = first_session_of_folded (load_stream events id) s now in
      let es : List EventEnvelope =
        input_event sid m ∷ staged_steer x f effect id sid t (length history) in
      let pay : payloads es ≡ input_payloads effect i m t = staged_payloads effect sid m in
      (
        es,
        plan_input-ok s m effect sid now e sess,
        fold_task-append history (payloads es) ∙ rw (now, pay) bad,
      )

abbrev steer_error : TransitionError
steer_error = record { from = queued; event = "task_steered" }

abbrev question_error : TransitionError
question_error = record { from = failed; event = "task_input_queued" }

-- Steering a queued task, and asking a side question of a failed one, is planned; and the task's stream
-- with the staged events folds to an error, which it keeps for ever.
pub plan-poisons :
    (x : External) (f : Fresh) (events : List EventEnvelope) (id i t : Text) (m : InputMode)
    (s : TaskState)
    → fold_task (load_task_events events id) ≡ some (ok s)
    → poisons s (queue_task_input id i m t) ≡ true
    → (es : List EventEnvelope) × (r : TransitionError) × (plan x f events
          (queue_task_input id i m t)
        ≡ ok es)
      × ((later : List DomainEvent)
          → fold_task ((load_task_events events id ++ payloads es) ++ later) ≡ some (err r))
unfolding input_effect fold_from apply_task_event
plan-poisons x f events id i t steer queued now p =
    let (es, planned, bad) =
      poisoned x f events id i t queued steer redirects_task steer_error now refl refl in
    (
      es,
      steer_error,
      planned,
      λ later.
          fold_task-append (load_task_events events id ++ payloads es) later
          ∙ rw bad (fold_from_err steer_error later),
    )
plan-poisons x f events id i t side_question failed now p =
    let (es, planned, bad) =
      poisoned x f events id i t failed side_question session_level_only question_error now refl
        refl in
    (
      es,
      question_error,
      planned,
      λ later.
          fold_task-append (load_task_events events id ++ payloads es) later
          ∙ rw bad (fold_from_err question_error later),
    )
plan-poisons x f events id i t _ _ now p = absurd (ground arith)

poisons-input :
    (s : TaskState) (c : CommandPayload)
    → poisons s c ≡ true
    → (id : Text) × (i : Text) × (m : InputMode) × (t : Text) × (c ≡ queue_task_input id i m t)
poisons-input queued (queue_task_input id i m t) p = (id, i, m, t, refl)
poisons-input failed (queue_task_input id i m t) p = (id, i, m, t, refl)
poisons-input _ _ p = absurd (ground arith)

poisoned_plan :
    (x : External) (f : Fresh) (events : List EventEnvelope) (c : CommandPayload) (id : Text)
    (s : TaskState) (es : List EventEnvelope)
    → target_aggregate c ≡ some id
    → fold_task (load_task_events events id) ≡ some (ok s)
    → plan x f events c ≡ ok es
    → poisons s c ≡ true
    → (r : TransitionError) × (fold_task (load_task_events events id ++ payloads es) ≡ some (err r))
unfolding target_aggregate
poisoned_plan x f events c id s es target now h p =
    let (j, i, m, t, e) = poisons-input s c p in
    let same : j ≡ id = cc in
    let (es', r, planned, bad) = plan-poisons x f events id i t m s now (rw (e, same) at p) in
    let whole : plan x f events (queue_task_input id i m t) ≡ ok es = rw (e, same) at h in
    let staged : es' ≡ es = cc in
    let folded : fold_task ((load_task_events events id ++ payloads es') ++ []) ≡ some (err r) =
      bad [] in
    (r, rw (append_nil (load_task_events events id ++ payloads es'), staged) at folded)

-- The events that a command on an existing task stages lead the task's stream to a lawful state exactly when the
-- command is neither a steer of a queued task nor a side question to a failed one.
pub plan-Accepted_iff :
    (x : External) (f : Fresh) (events : List EventEnvelope) (c : CommandPayload) (id : Text)
    (s : TaskState) (es : List EventEnvelope)
    → is_task_command c ≡ true
    → target_aggregate c ≡ some id
    → fold_task (load_task_events events id) ≡ some (ok s)
    → plan x f events c ≡ ok es
    → ((t : TaskState) × (fold_task (load_task_events events id ++ payloads es) ≡ some (ok t)))
      ↔ (poisons s c ≡ false)
plan-Accepted_iff x f events c id s es k target now h = (
  λ (t, good). elim (Bool-cases (poisons s c)) [
    | inl q ↦ let (r, bad) = poisoned_plan x f events c id s es target now h q in absurd (cc)
    | inr q ↦ q
  ],
  λ p. plan-Accepted x f events c id s es k target now h p,
)
