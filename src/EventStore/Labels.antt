-- ===== src/EventStore/Labels.antt =====
-- crates/event-store/src/projections.rs: the label of a task's row against crates/domain/src/task.rs.
use Prim.Native.String.{String}
use zmodbit.Prelude.{
  ◌≡◌, refl, subst, ◌∙◌, false, none, some, List, [], ◌∷◌, ◌++◌, bytes, map, Option, Text, text_eq,
  text_eq_iff, text_eq_refl, Option-cases, any, push, Result, ok, err, if◌then◌else◌, Bool-cases,
  inl, inr, arith,
}
use zmodbit.Domain.Events.{
  DomainEvent, task_created, task_queued, task_started, task_waiting, task_ready_for_review,
  task_completed, task_failed, task_cancelled, task_steered, goal_set, task_input_queued,
  review_hunk_resolved, review_comment_added,
}
use zmodbit.Domain.Task.{
  TaskState, TransitionError, created, queued, running, waiting, ready_for_review, completed,
  failed, cancelled, apply_task_event, resume_reason_of,
}
use zmodbit.EventStore.Envelope.{EventEnvelope}
use zmodbit.EventStore.Tables.{
  Store, TaskRow, SqlError, waiting_label, update_tasks, project_task, task_state,
  task_state_with_completion,
}

-- What the projection writes in the column `state` for a state of the machine.
abbrev pub label : TaskState → String
label created = "created"
label queued = "queued"
label running = "running"
label (waiting r) = waiting_label r
label ready_for_review = "ready_for_review"
label completed = "completed"
label failed = "failed"
label cancelled = "cancelled"

-- The state column of a task's row.
abbrev pub state_of : Text → List TaskRow → Option String
state_of id [] = none
state_of id (r ∷ rows) = if text_eq r.task_id id then some r.state else state_of id rows

-- The label that the projection of an event leaves a row with.
abbrev pub relabel : DomainEvent → String → String
relabel task_queued l = "queued"
relabel task_started l = "running"
relabel (task_waiting r) l = waiting_label r
relabel task_ready_for_review l = "ready_for_review"
relabel (task_completed _) l = "completed"
relabel (task_failed _ _) l = "failed"
relabel (task_cancelled _) l = "cancelled"
relabel _ l = l

abbrev Ends : String → Result TransitionError TaskState → Type 0
Ends l (ok t) = l ≡ label t
Ends l (err e) = Unit

apply_task_event-Ends :
    (s : TaskState) (e : DomainEvent) → Ends (relabel e (label s)) (apply_task_event s e)
unfolding apply_task_event resume_reason_of
apply_task_event-Ends created task_queued = refl
apply_task_event-Ends _ task_queued = tt
apply_task_event-Ends queued task_started = refl
apply_task_event-Ends (waiting _) task_started = refl
apply_task_event-Ends _ task_started = tt
apply_task_event-Ends running (task_waiting _) = refl
apply_task_event-Ends _ (task_waiting _) = tt
apply_task_event-Ends running task_ready_for_review = refl
apply_task_event-Ends (waiting _) task_ready_for_review = refl
apply_task_event-Ends _ task_ready_for_review = tt
apply_task_event-Ends ready_for_review (task_completed _) = refl
apply_task_event-Ends _ (task_completed _) = tt
apply_task_event-Ends running (task_failed _ _) = refl
apply_task_event-Ends (waiting _) (task_failed _ _) = refl
apply_task_event-Ends ready_for_review (task_failed _ _) = refl
apply_task_event-Ends _ (task_failed _ _) = tt
apply_task_event-Ends created (task_cancelled _) = refl
apply_task_event-Ends queued (task_cancelled _) = refl
apply_task_event-Ends running (task_cancelled _) = refl
apply_task_event-Ends (waiting _) (task_cancelled _) = refl
apply_task_event-Ends _ (task_cancelled _) = tt
apply_task_event-Ends running (task_steered _) = refl
apply_task_event-Ends (waiting _) (task_steered _) = refl
apply_task_event-Ends _ (task_steered _) = tt
apply_task_event-Ends created (task_input_queued _ _ _) = refl
apply_task_event-Ends queued (task_input_queued _ _ _) = refl
apply_task_event-Ends running (task_input_queued _ _ _) = refl
apply_task_event-Ends (waiting _) (task_input_queued _ _ _) = refl
apply_task_event-Ends ready_for_review (task_input_queued _ _ _) = refl
apply_task_event-Ends _ (task_input_queued _ _ _) = tt
apply_task_event-Ends running (review_hunk_resolved _ _ _ _) = refl
apply_task_event-Ends (waiting _) (review_hunk_resolved _ _ _ _) = refl
apply_task_event-Ends ready_for_review (review_hunk_resolved _ _ _ _) = refl
apply_task_event-Ends completed (review_hunk_resolved _ _ _ _) = refl
apply_task_event-Ends _ (review_hunk_resolved _ _ _ _) = tt
apply_task_event-Ends running (review_comment_added _ _ _ _) = refl
apply_task_event-Ends (waiting _) (review_comment_added _ _ _ _) = refl
apply_task_event-Ends ready_for_review (review_comment_added _ _ _ _) = refl
apply_task_event-Ends completed (review_comment_added _ _ _ _) = refl
apply_task_event-Ends _ (review_comment_added _ _ _ _) = tt
apply_task_event-Ends created (task_created _ _ _ _ _ _) = refl
apply_task_event-Ends _ (task_created _ _ _ _ _ _) = tt
apply_task_event-Ends s (goal_set _ _) = refl
apply_task_event-Ends s _ = tt

-- The machine takes an event to the state whose label the projection writes.
pub apply_task_event-relabel :
    (s t : TaskState) (e : DomainEvent)
    → apply_task_event s e ≡ ok t
    → relabel e (label s) ≡ label t
apply_task_event-relabel s t e h = subst (Ends (relabel e (label s))) h (apply_task_event-Ends s e)

state_of-update_self :
    (id : Text) (f : TaskRow → TaskRow) (l : String → String)
    → ((r : TaskRow) → ((f r).task_id ≡ r.task_id) × ((f r).state ≡ l r.state))
    → (rows : List TaskRow)
    → state_of id (map (λ r. if text_eq r.task_id id then f r else r) rows)
      ≡ elim (state_of id rows) [ some s ↦ some (l s) | none ↦ none ]
state_of-update_self id f l keeps [] = refl
state_of-update_self id f l keeps (r ∷ rows) =
    ground (arith, (keeps r).0, (keeps r).1, state_of-update_self id f l keeps rows)

state_of-update_other :
    (id key : Text) (f : TaskRow → TaskRow)
    → text_eq key id ≡ false
    → ((r : TaskRow) → (f r).task_id ≡ r.task_id)
    → (rows : List TaskRow)
    → state_of id (map (λ r. if text_eq r.task_id key then f r else r) rows) ≡ state_of id rows
state_of-update_other id key f other keeps [] = refl
state_of-update_other id key f other keeps (r ∷ rows) = ground (
  arith,
  keeps r,
  other,
  text_eq_iff r.task_id key,
  text_eq_iff r.task_id id,
  text_eq_iff key id,
  state_of-update_other id key f other keeps rows,
)

state_of-absent :
    (id : Text) (rows : List TaskRow)
    → any (λ r. text_eq r.task_id id) rows ≡ false
    → state_of id rows ≡ none
state_of-absent id [] h = refl
state_of-absent id (r ∷ rows) h = ground (arith, state_of-absent id rows)

state_of-push :
    (id : Text) (rows : List TaskRow) (r : TaskRow)
    → state_of id (push rows r) ≡ elim (state_of id rows) [
      | some s ↦ some s
      | none ↦ (if text_eq r.task_id id then some r.state else none)
    ]
state_of-push id [] r = ground arith
state_of-push id (d ∷ rows) r = ground (arith, state_of-push id rows r)

-- What the projection of an event does to the row of its task.
abbrev pub row_after : DomainEvent → Option String → Option String
row_after (task_created _ _ _ _ _ _) none = some "created"
row_after e none = none
row_after e (some l) = some (relabel e l)

abbrev created_row : EventEnvelope → Text → Text → Option Text → TaskRow
created_row e title prompt parent_task_id = record {
  task_id = e.aggregate_id;
  session_id = e.session_id;
  goal_text = title ++ bytes "\n" ++ prompt;
  state = "created";
  generation = e.sequence;
  created_at = e.occurred_at;
  started_at = none;
  completed_at = none;
  failure_code = none;
  parent_task_id = parent_task_id;
}

-- The rows of a task after an event of its own, and of the other tasks.
abbrev pub Moves : EventEnvelope → Store → DomainEvent → Result SqlError Store → Type 0
Moves e s p r =
    (t : Store)
    → r ≡ ok t
    → (state_of e.aggregate_id t.tasks ≡ row_after p (state_of e.aggregate_id s.tasks))
      × ((id : Text)
          → text_eq e.aggregate_id id ≡ false
          → state_of id t.tasks ≡ state_of id s.tasks)

same-Moves :
    (e : EventEnvelope) (s u : Store) (p : DomainEvent)
    → u.tasks ≡ s.tasks
    → row_after p none ≡ none
    → ((l : String) → row_after p (some l) ≡ some l)
    → Moves e s p (ok u)
same-Moves e s u p same start keeps t q = (
  elim (Option-cases (state_of e.aggregate_id s.tasks)) [
    | inl nothing ↦ ground (arith, same, start)
    | inr (l, found) ↦ ground (arith, same, keeps l)
  ],
  λ id other. ground (arith, same),
)

update-Moves :
    (e : EventEnvelope) (s : Store) (p : DomainEvent) (f : TaskRow → TaskRow)
    → ((r : TaskRow) → ((f r).task_id ≡ r.task_id) × ((f r).state ≡ relabel p r.state))
    → ((l : String) → row_after p (some l) ≡ some (relabel p l))
    → row_after p none ≡ none
    → Moves e s p (ok (update_tasks e.aggregate_id f s))
unfolding update_tasks
update-Moves e s p f keeps step start t q = (
  elim (Option-cases (state_of e.aggregate_id s.tasks)) [
    | inl nothing ↦
        ground (arith, start, state_of-update_self e.aggregate_id f (relabel p) keeps s.tasks)
    | inr (l, found) ↦
        ground (arith, step l, state_of-update_self e.aggregate_id f (relabel p) keeps s.tasks)
  ],
  λ id other.
      ground (arith, state_of-update_other id e.aggregate_id f other (λ r. (keeps r).0) s.tasks),
)

row_after-goal_set : (l : Option String) → row_after (goal_set [] []) l ≡ l
row_after-goal_set none = refl
row_after-goal_set (some l) = refl

pub project_task-Moves :
    (e : EventEnvelope) (s : Store) (p : DomainEvent) → Moves e s p (project_task e s p)
unfolding project_task task_state task_state_with_completion
project_task-Moves e s (task_created _ title prompt _ _ parent) = λ t q.
    elim (Bool-cases (any (λ r. text_eq r.task_id e.aggregate_id) s.tasks)) [
      | inl taken ↦ absurd (ground arith)
      | inr fresh ↦ elim (Bool-cases (any (λ r. text_eq r.session_id e.session_id) s.sessions)) [
        | inr unknown ↦ absurd (ground arith)
        | inl known ↦ (
          ground (
            arith,
            state_of-absent e.aggregate_id s.tasks fresh,
            state_of-push e.aggregate_id s.tasks (created_row e title prompt parent),
            text_eq_refl e.aggregate_id,
          ),
          λ id other. ground (arith, state_of-push id s.tasks (created_row e title prompt parent)),
        )
      ]
    ]
project_task-Moves e s task_queued =
    update-Moves e s task_queued _ (λ r. (refl, refl)) (λ l. refl) refl
project_task-Moves e s task_started =
    update-Moves e s task_started _ (λ r. (refl, refl)) (λ l. refl) refl
project_task-Moves e s (task_waiting r) =
    update-Moves e s (task_waiting r) _ (λ r. (refl, refl)) (λ l. refl) refl
project_task-Moves e s task_ready_for_review =
    update-Moves e s task_ready_for_review _ (λ r. (refl, refl)) (λ l. refl) refl
project_task-Moves e s (task_completed x) =
    update-Moves e s (task_completed x) _ (λ r. (refl, refl)) (λ l. refl) refl
project_task-Moves e s (task_failed code x) = λ t q.
    let u = task_state_with_completion e "failed" s in
    let coded =
      update-Moves e u (goal_set [] []) (λ r. record r { failure_code = some code })
        (λ r. (refl, refl)) (λ l. refl) refl t q in
    let moved =
      update-Moves e s (task_failed code x) _ (λ r. (refl, refl)) (λ l. refl) refl u refl in
    (
      coded.0 ∙ row_after-goal_set (state_of e.aggregate_id u.tasks) ∙ moved.0,
      λ id other. coded.1 id other ∙ moved.1 id other,
    )
project_task-Moves e s (task_cancelled x) =
    update-Moves e s (task_cancelled x) _ (λ r. (refl, refl)) (λ l. refl) refl
project_task-Moves e s (task_steered x) =
    update-Moves e s (task_steered x) _ (λ r. (refl, refl)) (λ l. refl) refl
project_task-Moves e s (task_input_queued input_id mode text) = λ t q.
    let same : t.tasks ≡ s.tasks = ground arith in
    same-Moves e s t (task_input_queued input_id mode text) same refl (λ l. refl) t refl
project_task-Moves e s p = same-Moves e s s p refl refl (λ l. refl)
