-- ===== src/EventStore/States.antt =====
-- crates/event-store/src/projections.rs: the rows of `tasks` against the fold of the streams by
-- crates/domain/src/task.rs.
use Prim.Native.String.{String}
use zmodbit.Prelude.{
  ◌≡◌, refl, subst, ap, ◌∙◌, false, none, some, List, [], ◌∷◌, map, Option, Text, text_eq,
  text_eq_iff, All, Result, ok, err, if◌then◌else◌, Bool-cases, Result-cases, inl, inr, arith,
}
use zmodbit.Domain.Events.{
  session, task, run, turn, run_step, DomainEvent, task_created, session_created,
}
use zmodbit.Domain.Task.{TaskState, TransitionError, first_event, fold_step, fold_from, fold_task}
use zmodbit.Domain.Life.{fold_from_err}
use zmodbit.EventStore.Envelope.{EventEnvelope}
use zmodbit.EventStore.Tables.{Store, SqlError, project_session, project_task, project}
use zmodbit.EventStore.Append.{of_aggregate, load_stream}
use zmodbit.EventStore.Reads.{load_task_events}
use zmodbit.EventStore.Numbering.{IsGapless, by_sequence-Numbered}
use zmodbit.EventStore.Projected.{project_all}
use zmodbit.EventStore.Built.{cleared, IsBuilt}
use zmodbit.EventStore.Labels.{
  label, state_of, relabel, row_after, apply_task_event-relabel, project_task-Moves,
}

row_after-some : (p : DomainEvent) (l : String) → row_after p (some l) ≡ some (relabel p l)
row_after-some (task_created _ _ _ _ _ _) l = refl
row_after-some _ l = refl

row_after-first :
    (p : DomainEvent) (st : TaskState) → first_event p ≡ ok st → row_after p none ≡ some (label st)
unfolding first_event
row_after-first (task_created _ _ _ _ _ _) st h = ground arith
row_after-first _ st h = absurd (ground arith)

project_session-tasks :
    (e : EventEnvelope) (s t : Store) (p : DomainEvent)
    → project_session e s p ≡ ok t
    → t.tasks ≡ s.tasks
unfolding project_session
project_session-tasks e s t (session_created _) h = ground arith
project_session-tasks e s t _ h = ground arith

-- The row of a task that the event is not of.
abbrev Apart : EventEnvelope → Text → Store → Result SqlError Store → Type 0
Apart e id s r = (t : Store) → r ≡ ok t → state_of id t.tasks ≡ state_of id s.tasks

project-Apart :
    (e : EventEnvelope) (id : Text) (s : Store)
    → text_eq e.aggregate_id id ≡ false
    → Apart e id s (project e s)
unfolding project
project-Apart e id s other =
    elim e.aggregate_type
      as (λ k. Apart e id s (elim k [
        | session ↦ project_session e s e.payload
        | task ↦ project_task e s e.payload
        | run ↦ ok s
        | turn ↦ ok s
        | run_step ↦ ok s
      ])) [
        | session ↦ λ t h. ap (state_of id) (project_session-tasks e s t e.payload h)
        | task ↦ λ t h. (project_task-Moves e s e.payload t h).1 id other
        | run ↦ λ t h. ground arith
        | turn ↦ λ t h. ground arith
        | run_step ↦ λ t h. ground arith
      ]

project-own :
    (e : EventEnvelope) (s t : Store)
    → e.aggregate_type ≡ task
    → project e s ≡ ok t
    → state_of e.aggregate_id t.tasks ≡ row_after e.payload (state_of e.aggregate_id s.tasks)
unfolding project
project-own e s t k h = (project_task-Moves e s e.payload t (ground arith)).0

-- The label of what a fold has reached.
abbrev label_of : Option (Result TransitionError TaskState) → Option String
label_of none = none
label_of (some (ok st)) = some (label st)
label_of (some (err x)) = none

row_after-fold_step :
    (current : Option (Result TransitionError TaskState)) (p : DomainEvent) (st : TaskState)
    → fold_step current p ≡ ok st
    → row_after p (label_of current) ≡ some (label st)
unfolding fold_step
row_after-fold_step none p st h = row_after-first p st h
row_after-fold_step (some (ok s)) p st h =
    row_after-some p (label s) ∙ ap (λ l. some l) (apply_task_event-relabel s st p h)
row_after-fold_step (some (err x)) p st h = absurd (ground arith)

abbrev payloads_of : Text → List EventEnvelope → List DomainEvent
payloads_of id events = map (λ e. e.payload) (of_aggregate id events)

project_all-fold :
    (id : Text) (st : TaskState) (events : List EventEnvelope) (s t : Store)
    (current : Option (Result TransitionError TaskState))
    → project_all events s ≡ ok t
    → All (λ e. e.aggregate_type ≡ task) (of_aggregate id events)
    → state_of id s.tasks ≡ label_of current
    → fold_from current (payloads_of id events) ≡ some (ok st)
    → state_of id t.tasks ≡ some (label st)
unfolding project_all fold_from
project_all-fold id st [] s t current h k q f = ground (arith, ap label_of f)
project_all-fold id st (e ∷ es) s t current h k q f = elim (Result-cases (project e s)) [
  | inr (x, p) ↦ absurd (ground arith)
  | inl (u, p) ↦ elim (Bool-cases (text_eq e.aggregate_id id)) [
    | inr other ↦
        let same = project-Apart e id s other u p in
        project_all-fold id st es u t current (ground arith)
          (subst
            (λ b.
              All (λ d. d.aggregate_type ≡ task)
                (if b then e ∷ of_aggregate id es else of_aggregate id es))
            other k)
          (same ∙ q)
          (subst
            (λ b.
              fold_from current
                (map (λ d. d.payload) (if b then e ∷ of_aggregate id es else of_aggregate id es))
              ≡ some (ok st))
            other f)
    | inl own ↦
        let kinds =
          subst
            (λ b.
              All (λ d. d.aggregate_type ≡ task)
                (if b then e ∷ of_aggregate id es else of_aggregate id es))
            own k in
        let folded =
          subst
            (λ b.
              fold_from current
                (map (λ d. d.payload) (if b then e ∷ of_aggregate id es else of_aggregate id es))
              ≡ some (ok st))
            own f in
        let at = (text_eq_iff e.aggregate_id id).0 own in
        let moved =
          subst (λ i. state_of i u.tasks ≡ row_after e.payload (state_of i s.tasks)) at
            (project-own e s u (kinds.0) p) in
        elim (Result-cases (fold_step current e.payload)) [
          | inr (x, rejected) ↦ absurd (ground (arith, fold_from_err x (payloads_of id es)))
          | inl (st', stepped) ↦
              project_all-fold id st es u t (some (ok st')) (ground arith) (kinds.1)
                (moved
                  ∙ ap (row_after e.payload) q
                  ∙ row_after-fold_step current e.payload st' stepped)
                (subst (λ r. fold_from (some r) (payloads_of id es) ≡ some (ok st)) stepped folded)
        ]
  ]
]

-- When a task's stream folds to a state, its row carries the label of that state, in tables that are the projection
-- of a gapless log.
pub state_of-fold_task :
    (s : Store) (id : Text) (st : TaskState)
    → IsBuilt s
    → IsGapless s.events
    → All (λ e. e.aggregate_type ≡ task) (load_stream s.events id)
    → fold_task (load_task_events s.events id) ≡ some (ok st)
    → state_of id s.tasks ≡ some (label st)
unfolding fold_task load_stream
state_of-fold_task s id st b g k f =
    let stream = by_sequence-Numbered 1 (of_aggregate id s.events) (g id) in
    project_all-fold id st s.events (cleared s) s none b
      (subst (All (λ e. e.aggregate_type ≡ task)) stream k) refl
      (subst (λ es. fold_from none (map (λ e. e.payload) es) ≡ some (ok st)) stream f)
