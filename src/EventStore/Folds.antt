-- ===== src/EventStore/Folds.antt =====
-- crates/event-store/src/commands.rs against crates/domain/src/task.rs: what the staged events do to the fold of
-- the task's stream.
use zmodbit.Prelude.{
  ◌≡◌, refl, ◌∙◌, Bool, true, false, some, List, [], ◌∷◌, ◌++◌, map, Text, ok, Result-cases,
  Option-cases, inl, inr, arith,
}
use zmodbit.Domain.Events.{
  DomainEvent, InputMode, steer, side_question, task_input_queued, task_steered, goal_set,
}
use zmodbit.Domain.Task.{TaskState, queued, failed, apply_task_event, fold_task, fold_from}
use zmodbit.Domain.Life.{fold_task-append}
use zmodbit.Domain.InputQueue.{
  InputEffect, redirects_task, queued_after_current, session_level_only, input_effect,
}
use zmodbit.Domain.Commands.{
  CommandPayload, create_session, create_task, fork_session, rewind_session, ask_side_question,
  queue_task_input, set_goal, target_aggregate,
}
use zmodbit.EventStore.Envelope.{EventEnvelope, External, Fresh, seal, envelope_for}
use zmodbit.EventStore.Reads.{load_task_events, lifecycle_event}
use zmodbit.EventStore.Plan.{plan, plan_lifecycle, plan_targeted, plan_input, plan_goal}

abbrev pub payloads : List EventEnvelope → List DomainEvent
payloads es = map (λ e. e.payload) es

-- The commands on an existing task; the others make an aggregate or address a session.
abbrev pub is_task_command : CommandPayload → Bool
is_task_command (create_session _) = false
is_task_command (create_task _ _ _ _ _ _) = false
is_task_command (fork_session _ _ _ _) = false
is_task_command (rewind_session _ _ _) = false
is_task_command (ask_side_question _ _ _ _) = false
is_task_command _ = true

-- The inputs that `input_effect` lets through and the task's state machine refuses.
abbrev pub poisons : TaskState → CommandPayload → Bool
poisons queued (queue_task_input _ _ steer _) = true
poisons failed (queue_task_input _ _ side_question _) = true
poisons _ _ = false

-- The events lead from the state s to some state.
abbrev Accepted : TaskState → List DomainEvent → Type 0
Accepted s es = (t : TaskState) × (fold_from (some (ok s)) es ≡ some (ok t))

Accepted-one :
    (s t : TaskState) (e : DomainEvent) → apply_task_event s e ≡ ok t → Accepted s (e ∷ [])
unfolding fold_from
Accepted-one s t e h = (t, rw h refl)

plan_lifecycle-Accepted :
    (x : External) (f : Fresh) (events : List EventEnvelope) (c : CommandPayload) (id : Text)
    (s : TaskState) (es : List EventEnvelope)
    → fold_task (load_task_events events id) ≡ some (ok s)
    → plan_lifecycle x f events c id ≡ ok es
    → Accepted s (payloads es)
unfolding plan_lifecycle seal envelope_for
plan_lifecycle-Accepted x f events c id s es now h = elim (Option-cases (lifecycle_event c)) [
  | inl none_such ↦ absurd (ground arith)
  | inr (e, event) ↦ elim (Result-cases (apply_task_event s e)) [
    | inr (r, refused) ↦ absurd (ground arith)
    | inl (t, moved) ↦
        let one : payloads es ≡ e ∷ [] = ground arith in rw one (Accepted-one s t e moved)
  ]
]

plan_goal-Accepted :
    (x : External) (f : Fresh) (events : List EventEnvelope) (id o : Text) (a : List Text)
    (s : TaskState) (es : List EventEnvelope)
    → plan_goal x f events id (goal_set o a) ≡ ok es
    → Accepted s (payloads es)
unfolding plan_goal seal envelope_for
plan_goal-Accepted x f events id o a s es h =
    let one : payloads es ≡ goal_set o a ∷ [] = ground arith in
    rw one (Accepted-one s s (goal_set o a) (unfold apply_task_event in refl))

-- The payloads that an input stages.
abbrev pub input_payloads : InputEffect → Text → InputMode → Text → List DomainEvent
input_payloads redirects_task i m t = task_input_queued i m t ∷ task_steered t ∷ []
input_payloads _ i m t = task_input_queued i m t ∷ []

plan_input-payloads :
    (x : External) (f : Fresh) (events : List EventEnvelope) (id i : Text) (m : InputMode)
    (t : Text) (s : TaskState) (es : List EventEnvelope)
    → fold_task (load_task_events events id) ≡ some (ok s)
    → plan_input x f events id i m t ≡ ok es
    → (effect : InputEffect) × (input_effect s m ≡ ok effect)
      × (payloads es ≡ input_payloads effect i m t)
unfolding plan_input seal envelope_for
plan_input-payloads x f events id i m t s es now h = elim (Result-cases (input_effect s m)) [
  | inr (r, refused) ↦ absurd (ground arith)
  | inl (redirects_task, e) ↦ (redirects_task, e, ground arith)
  | inl (queued_after_current, e) ↦ (queued_after_current, e, ground arith)
  | inl (session_level_only, e) ↦ (session_level_only, e, ground arith)
]

input-Accepted :
    (id i t : Text) (s : TaskState) (m : InputMode) (effect : InputEffect)
    → input_effect s m ≡ ok effect
    → poisons s (queue_task_input id i m t) ≡ false
    → Accepted s (input_payloads effect i m t)
unfolding input_effect fold_from apply_task_event
input-Accepted id i t s m redirects_task h p = (s, ground arith)
input-Accepted id i t s m queued_after_current h p = (s, ground arith)
input-Accepted id i t s m session_level_only h p = (s, ground arith)

plan_targeted-Accepted :
    (x : External) (f : Fresh) (events : List EventEnvelope) (c : CommandPayload) (id : Text)
    (s : TaskState) (es : List EventEnvelope)
    → target_aggregate c ≡ some id
    → fold_task (load_task_events events id) ≡ some (ok s)
    → plan_targeted x f events c (target_aggregate c) ≡ ok es
    → Accepted s (payloads es)
unfolding plan_targeted
plan_targeted-Accepted x f events c id s es target now h =
    plan_lifecycle-Accepted x f events c id s es now (rw (target, plan_targeted) at h)

plan_input-Accepted :
    (x : External) (f : Fresh) (events : List EventEnvelope) (id i : Text) (m : InputMode)
    (t : Text) (s : TaskState) (es : List EventEnvelope)
    → fold_task (load_task_events events id) ≡ some (ok s)
    → plan_input x f events id i m t ≡ ok es
    → poisons s (queue_task_input id i m t) ≡ false
    → Accepted s (payloads es)
plan_input-Accepted x f events id i m t s es now h p =
    let (effect, e, pay) = plan_input-payloads x f events id i m t s es now h in
    rw pay (input-Accepted id i t s m effect e p)

target_of_input :
    (j i : Text) (m : InputMode) (t id : Text)
    → target_aggregate (queue_task_input j i m t) ≡ some id
    → j ≡ id
unfolding target_aggregate
target_of_input j i m t id h = cc

staged-Accepted :
    (x : External) (f : Fresh) (events : List EventEnvelope) (c : CommandPayload) (id : Text)
    (s : TaskState) (es : List EventEnvelope)
    → is_task_command c ≡ true
    → target_aggregate c ≡ some id
    → fold_task (load_task_events events id) ≡ some (ok s)
    → plan x f events c ≡ ok es
    → poisons s c ≡ false
    → Accepted s (payloads es)
unfolding plan
staged-Accepted x f events (create_session _) id s es k target now h p = cc
staged-Accepted x f events (create_task _ _ _ _ _ _) id s es k target now h p = cc
staged-Accepted x f events (fork_session _ _ _ _) id s es k target now h p = cc
staged-Accepted x f events (rewind_session _ _ _) id s es k target now h p = cc
staged-Accepted x f events (ask_side_question _ _ _ _) id s es k target now h p = cc
staged-Accepted x f events (queue_task_input j i m t) id s es k target now h p =
    let same : j ≡ id = target_of_input j i m t id target in
    plan_input-Accepted x f events j i m t s es (rw same now) h p
staged-Accepted x f events (set_goal j o a) id s es k target now h p =
    plan_goal-Accepted x f events j o a s es h
staged-Accepted x f events c id s es k target now h p =
    plan_targeted-Accepted x f events c id s es target now h

-- A command on an existing task that stages events leaves the task's stream with a lawful state, unless it is a
-- steer of a queued task or a side question to a failed one.
pub plan-Accepted :
    (x : External) (f : Fresh) (events : List EventEnvelope) (c : CommandPayload) (id : Text)
    (s : TaskState) (es : List EventEnvelope)
    → is_task_command c ≡ true
    → target_aggregate c ≡ some id
    → fold_task (load_task_events events id) ≡ some (ok s)
    → plan x f events c ≡ ok es
    → poisons s c ≡ false
    → (t : TaskState) × (fold_task (load_task_events events id ++ payloads es) ≡ some (ok t))
plan-Accepted x f events c id s es k target now h p =
    let (t, e) = staged-Accepted x f events c id s es k target now h p in
    (t, fold_task-append (load_task_events events id) (payloads es) ∙ rw now e)
