-- ===== src/EventStore/Referenced.antt =====
-- crates/event-store/src/projections.rs: the inputs that refer to a task, which `rebuild` cannot delete.
use zmodbit.Prelude.{
  ◌≡◌, refl, subst, true, false, List, [], ◌∷◌, ℕ, length, map, Bool, Text, ensure, not, ◌&&◌, ◌==◌,
  ◌>>◌, text_eq, any, All, All-map, All-push, push, if◌then◌else◌, Result, ok, err, Result-cases,
  inl, inr, arith,
}
use zmodbit.Domain.Events.{
  session, task, run, turn, run_step, DomainEvent, session_created, task_created, task_queued,
  task_started, task_waiting, task_ready_for_review, task_completed, task_failed, task_cancelled,
  task_steered, task_input_queued,
}
use zmodbit.EventStore.Envelope.{EventEnvelope, External}
use zmodbit.EventStore.Tables.{
  Store, SqlError, TaskRow, InputRow, still_referenced, duplicate_task, no_such_session,
  duplicate_input, no_such_task, duplicate_session, project_session, project_task, project,
  update_tasks, task_state, task_state_with_completion,
}
use zmodbit.EventStore.Append.{StoreError, sqlite}
use zmodbit.EventStore.Written.{Write, run_writes, AreStored, run_writes-IsBuilt}
use zmodbit.EventStore.Rebuilt.{IsTyped, rebuild-IsBuilt}
use zmodbit.EventStore.Projected.{project_all}
use zmodbit.EventStore.Built.{cleared, IsBuilt}
use zmodbit.EventStore.Rebuild.{RowReader, delete_projections, rebuild}

abbrev has_task : List TaskRow → Text → Bool
has_task ts id = any (λ t. text_eq t.task_id id) ts

-- `REFERENCES tasks(task_id)`: every input's task has its row.
abbrev HasTasks : Store → Type 0
HasTasks s = All (λ i. has_task s.tasks i.task_id ≡ true) s.task_inputs

abbrev KeepsTasks : Result SqlError Store → Type 0
KeepsTasks r = (t : Store) → r ≡ ok t → HasTasks t

ok-KeepsTasks : (s : Store) → HasTasks s → KeepsTasks (ok s)
ok-KeepsTasks s h t q = subst HasTasks {x = s} {y = t} (ground arith) h

ensure-KeepsTasks :
    (c : Bool) (f : SqlError) (r : Result SqlError Store)
    → (c ≡ true → KeepsTasks r)
    → KeepsTasks (ensure c f >> r)
ensure-KeepsTasks true f r h = h refl
ensure-KeepsTasks false f r h = λ t q. absurd (ground arith)

has_task-push :
    (ts : List TaskRow) (t : TaskRow) (id : Text)
    → has_task ts id ≡ true
    → has_task (push ts t) id ≡ true
has_task-push [] t id h = ground arith
has_task-push (r ∷ ts) t id h = ground (arith, has_task-push ts t id)

has_task-update :
    (key : Text) (f : TaskRow → TaskRow)
    → ((r : TaskRow) → (f r).task_id ≡ r.task_id)
    → (ts : List TaskRow) (id : Text) → has_task ts id ≡ true
    → has_task (map (λ r. if text_eq r.task_id key then f r else r) ts) id ≡ true
has_task-update key f keeps [] id h = h
has_task-update key f keeps (r ∷ ts) id h =
    ground (arith, keeps r, has_task-update key f keeps ts id)

update_tasks-HasTasks :
    (key : Text) (f : TaskRow → TaskRow) (s : Store)
    → ((r : TaskRow) → (f r).task_id ≡ r.task_id)
    → HasTasks s
    → HasTasks (update_tasks key f s)
unfolding update_tasks
update_tasks-HasTasks key f s keeps h =
    All-map _ _ (λ i q. has_task-update key f keeps s.tasks i.task_id q) s.task_inputs h

project_task-HasTasks :
    (e : EventEnvelope) (s : Store) (p : DomainEvent) → HasTasks s → KeepsTasks (project_task e s p)
unfolding project_task task_state task_state_with_completion
project_task-HasTasks e s (task_created _ title prompt _ _ parent) h =
    ensure-KeepsTasks (not (has_task s.tasks e.aggregate_id)) duplicate_task _ λ fresh.
      ensure-KeepsTasks (any (λ r. text_eq r.session_id e.session_id) s.sessions) no_such_session _
        λ known.
          ok-KeepsTasks _ (All-map _ _ (λ i q. has_task-push s.tasks _ i.task_id q) s.task_inputs h)
project_task-HasTasks e s task_queued h =
    ok-KeepsTasks _ (update_tasks-HasTasks _ _ s (λ r. refl) h)
project_task-HasTasks e s task_started h =
    ok-KeepsTasks _ (update_tasks-HasTasks _ _ s (λ r. refl) h)
project_task-HasTasks e s (task_waiting reason) h =
    ok-KeepsTasks _ (update_tasks-HasTasks _ _ s (λ r. refl) h)
project_task-HasTasks e s task_ready_for_review h =
    ok-KeepsTasks _ (update_tasks-HasTasks _ _ s (λ r. refl) h)
project_task-HasTasks e s (task_completed _) h =
    ok-KeepsTasks _ (update_tasks-HasTasks _ _ s (λ r. refl) h)
project_task-HasTasks e s (task_failed code _) h = ok-KeepsTasks _ (
    update_tasks-HasTasks _ _ (task_state_with_completion e "failed" s) (λ r. refl)
      (update_tasks-HasTasks _ _ s (λ r. refl) h))
project_task-HasTasks e s (task_cancelled _) h =
    ok-KeepsTasks _ (update_tasks-HasTasks _ _ s (λ r. refl) h)
project_task-HasTasks e s (task_steered _) h =
    ok-KeepsTasks _ (update_tasks-HasTasks _ _ s (λ r. refl) h)
project_task-HasTasks e s (task_input_queued input_id mode text) h =
    ensure-KeepsTasks (not (any (λ r. text_eq r.input_id input_id) s.task_inputs)) duplicate_input _
      λ fresh.
        ensure-KeepsTasks
          (not
            (any (λ r. text_eq r.task_id e.aggregate_id && r.sequence == e.sequence) s.task_inputs))
          duplicate_input _
          λ free.
            ensure-KeepsTasks (has_task s.tasks e.aggregate_id) no_such_task _
              λ found. ok-KeepsTasks _ (All-push _ s.task_inputs _ h found)
project_task-HasTasks e s _ h = ok-KeepsTasks s h

project_session-HasTasks :
    (e : EventEnvelope) (s : Store) (p : DomainEvent)
    → HasTasks s
    → KeepsTasks (project_session e s p)
unfolding project_session
project_session-HasTasks e s (session_created _) h =
    ensure-KeepsTasks (not (any (λ r. text_eq r.session_id e.aggregate_id) s.sessions))
      duplicate_session _ λ fresh. ok-KeepsTasks _ h
project_session-HasTasks e s _ h = ok-KeepsTasks s h

project-HasTasks : (e : EventEnvelope) (s : Store) → HasTasks s → KeepsTasks (project e s)
unfolding project
project-HasTasks e s h =
    elim e.aggregate_type
      as (λ t. KeepsTasks (elim t [
        | session ↦ project_session e s e.payload
        | task ↦ project_task e s e.payload
        | run ↦ ok s
        | turn ↦ ok s
        | run_step ↦ ok s
      ])) [
        | session ↦ project_session-HasTasks e s e.payload h
        | task ↦ project_task-HasTasks e s e.payload h
        | run ↦ ok-KeepsTasks s h
        | turn ↦ ok-KeepsTasks s h
        | run_step ↦ ok-KeepsTasks s h
      ]

project_all-HasTasks :
    (es : List EventEnvelope) (s : Store) → HasTasks s → KeepsTasks (project_all es s)
unfolding project_all
project_all-HasTasks [] s h = ok-KeepsTasks s h
project_all-HasTasks (e ∷ es) s h = elim (Result-cases (project e s)) [
  | inr (f, q) ↦ λ t p. absurd (ground arith)
  | inl (u, q) ↦ λ t p. project_all-HasTasks es u (project-HasTasks e s h u q) t (ground arith)
]

IsBuilt-HasTasks : (s : Store) → IsBuilt s → HasTasks s
IsBuilt-HasTasks s b = project_all-HasTasks s.events (cleared s) tt s b

-- Tables that are the projection of their log and hold an input cannot be rebuilt, and stay as they are.
pub rebuild-queued :
    (row : RowReader) (s : Store) (i : InputRow) (is : List InputRow)
    → IsBuilt s
    → s.task_inputs ≡ i ∷ is
    → rebuild row s ≡ (err (sqlite still_referenced), s)
unfolding rebuild delete_projections
rebuild-queued row s i is b q =
    let found =
      subst (λ js. All (λ j. has_task s.tasks j.task_id ≡ true) js) q (IsBuilt-HasTasks s b) in
    ground (arith, found.0)

-- The store before its first write.
abbrev pub empty_store : Store
empty_store = record { events = []; command_log = []; sessions = []; tasks = []; task_inputs = [] }

abbrev pub rebuilt : List InputRow → Store → Result StoreError ℕ × Store
rebuilt [] s = (ok (length s.events), s)
rebuilt (i ∷ is) s = (err (sqlite still_referenced), s)

rebuilt-IsBuilt :
    (row : RowReader) (s : Store)
    → IsBuilt s
    → All (IsTyped row) s.events
    → (is : List InputRow) → s.task_inputs ≡ is
    → rebuild row s ≡ rebuilt is s
rebuilt-IsBuilt row s b typed [] e = rebuild-IsBuilt row s b e typed
rebuilt-IsBuilt row s b typed (i ∷ is) e = rebuild-queued row s i is b e

-- After any appends and commands on a new store, of which no command is rejected with an error of the store, and when
-- the rows have UUIDs and payloads that decode to what was stored, a rebuild leaves exactly the tables that the writes
-- made: it counts all events when there is no input, and fails on a deletion when there is one.
pub rebuild-run_writes :
    (row : RowReader) (x : External) (ws : List Write)
    → AreStored x ws empty_store
    → All (IsTyped row) (run_writes x ws empty_store).events
    → let s = run_writes x ws empty_store in rebuild row s ≡ rebuilt s.task_inputs s
unfolding project_all
rebuild-run_writes row x ws h typed =
    let s = run_writes x ws empty_store in
    rebuilt-IsBuilt row s (run_writes-IsBuilt x ws empty_store refl h) typed s.task_inputs refl
