-- ===== src/Domain/Life.antt =====
-- The lifecycle that the header of crates/domain/src/task.rs draws, with the six moves that the code adds to it and the
-- records beside the moves, as a relation that does not mention the code; and the code against it.
use Prim.Native.String.{String}
use zmodbit.Prelude.{
  ◌≡◌, refl, ◌↔◌, subst, Result-cases, inl, inr, List, [], ◌∷◌, ◌++◌, some, none, Text, Result, ok,
  err, ℕ, Bool, Option,
}
use zmodbit.Domain.Events.{
  DomainEvent, WaitingReason, InputMode, task_created, task_queued, task_started, task_waiting,
  task_ready_for_review, task_completed, task_failed, task_cancelled, task_steered,
  review_hunk_resolved, review_comment_added, goal_set, task_input_queued,
}
use zmodbit.Domain.Task.{
  TaskState, TransitionError, created, queued, running, waiting, ready_for_review, completed,
  failed, cancelled, on_review, apply_task_event, fold_task, fold_from, fold_step,
}

-- A run has been started and has not come to its review.
pub data IsActive : TaskState → Type 0 where
  active_running : IsActive running
  active_waiting : {r : WaitingReason} → IsActive (waiting r)

-- A review surface exists: changes have been made, and nothing failed or was cancelled.
pub data IsReviewable : TaskState → Type 0 where
  during : {s : TaskState} → IsActive s → IsReviewable s
  before_completion : IsReviewable ready_for_review
  after_completion : IsReviewable completed

pub data IsTerminal : TaskState → Type 0 where
  terminal_completed : IsTerminal completed
  terminal_failed : IsTerminal failed
  terminal_cancelled : IsTerminal cancelled

-- The edges of the diagram, and no others.
pub data Edge : TaskState → DomainEvent → TaskState → Type 0 where
  enqueue : Edge created task_queued queued
  start : Edge queued task_started running
  resume : {r : WaitingReason} → Edge (waiting r) task_started running
  wait : {r : WaitingReason} → Edge running (task_waiting r) (waiting r)
  ready : Edge running task_ready_for_review ready_for_review
  complete : {m : Text} → Edge ready_for_review (task_completed m) completed
  fail : {c m : Text} → Edge running (task_failed c m) failed
  cancel : {m : Text} → Edge running (task_cancelled m) cancelled

-- The moves that the code makes and the diagram does not have.
pub data Detour : TaskState → DomainEvent → TaskState → Type 0 where
  ready_waiting : {r : WaitingReason} → Detour (waiting r) task_ready_for_review ready_for_review
  fail_waiting : {r : WaitingReason} {c m : Text} → Detour (waiting r) (task_failed c m) failed
  fail_review : {c m : Text} → Detour ready_for_review (task_failed c m) failed
  cancel_created : {m : Text} → Detour created (task_cancelled m) cancelled
  cancel_queued : {m : Text} → Detour queued (task_cancelled m) cancelled
  cancel_waiting : {r : WaitingReason} {m : Text} → Detour (waiting r) (task_cancelled m) cancelled

-- No verdict on the task has been given.
pub data IsOpen : TaskState → Type 0 where
  open_created : IsOpen created
  open_queued : IsOpen queued
  open_active : {s : TaskState} → IsActive s → IsOpen s
  open_review : IsOpen ready_for_review

-- The records that a task's stream carries beside its transitions; none of them moves the task.
pub data Note : TaskState → DomainEvent → Type 0 where
  note_created : {i t p : Text} {r b c : Option Text} → Note created (task_created i t p r b c)
  note_steered : {s : TaskState} {m : Text} → IsActive s → Note s (task_steered m)
  note_goal : {s : TaskState} {o : Text} {a : List Text} → Note s (goal_set o a)
  note_input :
      {s : TaskState} {i : Text} {m : InputMode} {t : Text}
      → IsOpen s
      → Note s (task_input_queued i m t)
  note_hunk :
      {s : TaskState} {p : Text} {n : ℕ} {a : Bool} {r : Text}
      → IsReviewable s
      → Note s (review_hunk_resolved p n a r)
  note_comment :
      {s : TaskState} {p : Text} {n : ℕ} {b r : Text}
      → IsReviewable s
      → Note s (review_comment_added p n b r)

pub data Step : TaskState → DomainEvent → TaskState → Type 0 where
  move : {s t : TaskState} {e : DomainEvent} → Edge s e t → Step s e t
  detour : {s t : TaskState} {e : DomainEvent} → Detour s e t → Step s e t
  keep : {s : TaskState} {e : DomainEvent} → Note s e → Step s e s

pub data Steps : TaskState → List DomainEvent → TaskState → Type 0 where
  here : {s : TaskState} → Steps s [] s
  next :
      {s t u : TaskState} {e : DomainEvent} {es : List DomainEvent}
      → Step s e t
      → Steps t es u
      → Steps s (e ∷ es) u

ruleset edges = (enqueue, start, resume, wait, ready, complete, fail, cancel, move)

ruleset detours = (
  ready_waiting, fail_waiting, fail_review, cancel_created, cancel_queued, cancel_waiting, detour,
)

ruleset notes = (note_created, note_steered, note_goal, note_input, note_hunk, note_comment, keep)

ruleset classes = (
  active_running, active_waiting, during, before_completion, after_completion, open_created,
  open_queued, open_active, open_review,
)

-- What a result of `apply_task_event` says of the lifecycle.
abbrev Agrees : TaskState → DomainEvent → Result TransitionError TaskState → Type 0
Agrees s e (ok t) = Step s e t
Agrees s e (err x) = Unit

apply-Agrees : (s : TaskState) (e : DomainEvent) → Agrees s e (apply_task_event s e)
unfolding apply_task_event
apply-Agrees created task_queued = move enqueue
apply-Agrees queued task_queued = tt
apply-Agrees running task_queued = tt
apply-Agrees (waiting r) task_queued = tt
apply-Agrees ready_for_review task_queued = tt
apply-Agrees completed task_queued = tt
apply-Agrees failed task_queued = tt
apply-Agrees cancelled task_queued = tt
apply-Agrees _ _ = search (edges, detours, notes, classes)

Edge-apply : {s t : TaskState} {e : DomainEvent} → Edge s e t → apply_task_event s e ≡ ok t
unfolding apply_task_event
Edge-apply enqueue = refl
Edge-apply start = refl
Edge-apply resume = refl
Edge-apply wait = refl
Edge-apply ready = refl
Edge-apply complete = refl
Edge-apply fail = refl
Edge-apply cancel = refl

Detour-apply : {s t : TaskState} {e : DomainEvent} → Detour s e t → apply_task_event s e ≡ ok t
unfolding apply_task_event
Detour-apply ready_waiting = refl
Detour-apply fail_waiting = refl
Detour-apply fail_review = refl
Detour-apply cancel_created = refl
Detour-apply cancel_queued = refl
Detour-apply cancel_waiting = refl

review-apply : {s : TaskState} (n : String) → IsReviewable s → on_review n s ≡ ok s
review-apply n (during active_running) = refl
review-apply n (during active_waiting) = refl
review-apply n before_completion = refl
review-apply n after_completion = refl

Note-apply : {s : TaskState} {e : DomainEvent} → Note s e → apply_task_event s e ≡ ok s
unfolding apply_task_event
Note-apply note_created = refl
Note-apply (note_steered active_running) = refl
Note-apply (note_steered active_waiting) = refl
Note-apply note_goal = refl
Note-apply (note_input open_created) = refl
Note-apply (note_input open_queued) = refl
Note-apply (note_input (open_active active_running)) = refl
Note-apply (note_input (open_active active_waiting)) = refl
Note-apply (note_input open_review) = refl
Note-apply (note_hunk v) = review-apply _ v
Note-apply (note_comment v) = review-apply _ v

pub apply-Step : {s t : TaskState} (e : DomainEvent) → apply_task_event s e ≡ ok t → Step s e t
apply-Step {s} e h = subst (Agrees s e) h (apply-Agrees s e)

pub Step-apply : {s t : TaskState} {e : DomainEvent} → Step s e t → apply_task_event s e ≡ ok t
Step-apply (move m) = Edge-apply m
Step-apply (detour d) = Detour-apply d
Step-apply (keep n) = Note-apply n

-- The life of a task: a creation event, and then edges of the diagram, detours from it and notes.
pub data Life : List DomainEvent → TaskState → Type 0 where
  born :
      {i t p : Text} {r b c : Option Text} {es : List DomainEvent} {s : TaskState}
      → Steps created es s
      → Life (task_created i t p r b c ∷ es) s

pub fold_from_err :
    (x : TransitionError) (es : List DomainEvent) → fold_from (some (err x)) es ≡ some (err x)
unfolding fold_from
fold_from_err x [] = refl
fold_from_err x (e ∷ es) = fold_from_err x es

fold_from-append :
    (r : Option (Result TransitionError TaskState)) (es fs : List DomainEvent)
    → fold_from r (es ++ fs) ≡ fold_from (fold_from r es) fs
unfolding fold_from
fold_from-append r [] fs = refl
fold_from-append r (e ∷ es) fs = fold_from-append (some (fold_step r e)) es fs

pub fold_task-append :
    (es fs : List DomainEvent) → fold_task (es ++ fs) ≡ fold_from (fold_task es) fs
unfolding fold_task
fold_task-append es fs = fold_from-append none es fs

pub fold_from-Steps :
    {s t : TaskState} (es : List DomainEvent)
    → fold_from (some (ok s)) es ≡ some (ok t)
    → Steps s es t
unfolding fold_from
fold_from-Steps {s} {t} [] h = let same : s ≡ t = cc in subst (Steps s []) same here
fold_from-Steps {s} (e ∷ es) h = elim (Result-cases (apply_task_event s e)) [
  | inl (u, q) ↦ next (apply-Step e q) (fold_from-Steps es (rw q at h))
  | inr (x, q) ↦ cc (fold_from_err x es, q)
]

pub Steps-fold_from :
    {s t : TaskState} {es : List DomainEvent}
    → Steps s es t
    → fold_from (some (ok s)) es ≡ some (ok t)
unfolding fold_from
Steps-fold_from here = refl
Steps-fold_from (next {es = es} st r) = rw (Step-apply st) (Steps-fold_from r)

abbrev late : TransitionError
late = record { from = created; event = "non-creation event first" }

pub fold_task-Life :
    {s : TaskState} (es : List DomainEvent) → fold_task es ≡ some (ok s) → Life es s
unfolding fold_task
fold_task-Life [] h = cc
fold_task-Life (task_created _ _ _ _ _ _ ∷ es) h = born (fold_from-Steps es h)
fold_task-Life (_ ∷ es) h = cc (fold_from_err late es)

pub Life-fold_task :
    {s : TaskState} {es : List DomainEvent} → Life es s → fold_task es ≡ some (ok s)
unfolding fold_task
Life-fold_task (born r) = Steps-fold_from r

-- Folding a stream gives the state s exactly when the stream is a creation event, followed by edges of the diagram, by
-- the six moves that the diagram lacks, and by notes, that end in s.
pub fold_task_iff :
    (es : List DomainEvent) (s : TaskState) → (fold_task es ≡ some (ok s)) ↔ Life es s
fold_task_iff es s = (fold_task-Life es, Life-fold_task)
