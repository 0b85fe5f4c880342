-- ===== src/Domain/History.antt =====
-- crates/domain/src/task.rs: what the state of a task says of the events that led to it.
use zmodbit.Prelude.{◌≡◌, refl, ap, subst, ◌⊎◌, inl, inr, List, [], ◌∷◌, ◌++◌, some, ok, Text}
use zmodbit.Domain.Events.{DomainEvent, task_completed, task_ready_for_review}
use zmodbit.Domain.Task.{TaskState, created, ready_for_review, completed, fold_task}
use zmodbit.Domain.Life.{
  IsActive, active_running, active_waiting, IsTerminal, Edge, Detour, detour, Step, Steps, move,
  keep, here, next, Life, born, enqueue, start, resume, wait, ready, complete, fail, cancel,
  ready_waiting, fail_waiting, fail_review, cancel_created, cancel_queued, cancel_waiting,
  fold_task-Life, Life-fold_task, fold_from-Steps, fold_task-append,
}

active_not_terminal : {s : TaskState} → IsActive s → IsTerminal s → ⊥
active_not_terminal active_running t = elim t [ ]
active_not_terminal active_waiting t = elim t [ ]

Edge-not_terminal : {s t : TaskState} {e : DomainEvent} → Edge s e t → IsTerminal s → ⊥
Edge-not_terminal enqueue t = elim t [ ]
Edge-not_terminal start t = elim t [ ]
Edge-not_terminal resume t = elim t [ ]
Edge-not_terminal wait t = elim t [ ]
Edge-not_terminal ready t = elim t [ ]
Edge-not_terminal complete t = elim t [ ]
Edge-not_terminal fail t = elim t [ ]
Edge-not_terminal cancel t = elim t [ ]

Detour-not_terminal : {s t : TaskState} {e : DomainEvent} → Detour s e t → IsTerminal s → ⊥
Detour-not_terminal ready_waiting t = elim t [ ]
Detour-not_terminal fail_waiting t = elim t [ ]
Detour-not_terminal fail_review t = elim t [ ]
Detour-not_terminal cancel_created t = elim t [ ]
Detour-not_terminal cancel_queued t = elim t [ ]
Detour-not_terminal cancel_waiting t = elim t [ ]

Steps-from_terminal :
    {s t : TaskState} {es : List DomainEvent} → Steps s es t → IsTerminal s → t ≡ s
Steps-from_terminal here v = refl
Steps-from_terminal (next (move m) r) v = absurd (Edge-not_terminal m v)
Steps-from_terminal (next (detour d) r) v = absurd (Detour-not_terminal d v)
Steps-from_terminal (next (keep n) r) v = Steps-from_terminal r v

-- A state that a step enters only under `Enter` was entered so at some point of the steps that lead to it.
module _ (goal : TaskState) (Enter : TaskState → DomainEvent → Type 0)
    (enters : (s t : TaskState) (e : DomainEvent)
      → Step s e t
      → t ≡ goal
      → (s ≡ goal) ⊎ Enter s e) where
  Entry : TaskState → List DomainEvent → Type 0
  Entry s es =
      (a : List DomainEvent) × (e : DomainEvent) × (c : List DomainEvent) × (u : TaskState) × (es
        ≡ a ++ e ∷ c)
      × Steps s a u
      × Enter u e

  Steps-Entry :
      {s t : TaskState} {es : List DomainEvent} → Steps s es t → t ≡ goal → (s ≡ goal) ⊎ Entry s es
  unfolding Entry
  Steps-Entry here g = inl g
  Steps-Entry (next {s = s} {t = t} {e = e} {es = es} st r) g = elim (Steps-Entry r g) [
    | inr (a, d, c, u, p, q, n) ↦ inr (e ∷ a, d, c, u, ap (◌∷◌ e) p, next st q, n)
    | inl g' ↦ elim (enters s t e st g') [
      | inl same ↦ inl same
      | inr n ↦ inr ([], e, es, s, refl, here, n)
    ]
  ]

EntersCompleted : TaskState → DomainEvent → Type 0
EntersCompleted s e = (m : Text) × (e ≡ task_completed m) × (s ≡ ready_for_review)

EntersReview : TaskState → DomainEvent → Type 0
EntersReview s e = (e ≡ task_ready_for_review) × IsActive s

enters_completed :
    (s t : TaskState) (e : DomainEvent)
    → Step s e t
    → t ≡ completed
    → (s ≡ completed) ⊎ EntersCompleted s e
unfolding EntersCompleted
enters_completed s t e (keep n) g = inl g
enters_completed s t e (move (complete {m = m})) g = inr (m, refl, refl)
enters_completed s t e (move _) g = cc
enters_completed s t e (detour ready_waiting) g = cc
enters_completed s t e (detour _) g = cc

enters_review :
    (s t : TaskState) (e : DomainEvent)
    → Step s e t
    → t ≡ ready_for_review
    → (s ≡ ready_for_review) ⊎ EntersReview s e
unfolding EntersReview
enters_review s t e (keep n) g = inl g
enters_review s t e (move ready) g = inr (refl, active_running)
enters_review s t e (detour ready_waiting) g = inr (refl, active_waiting)
enters_review s t e (move _) g = cc
enters_review s t e (detour _) g = cc

-- The stream splits into a part that leaves a started run active, the event that hands it to review, a part
-- that leaves it in review, the event that completes it, and a rest.
abbrev pub Reviewed : List DomainEvent → Type 0
Reviewed es =
    (p : List DomainEvent) × (q : List DomainEvent) × (c : List DomainEvent) × (m : Text)
    × (s : TaskState) × (es ≡ (p ++ task_ready_for_review ∷ q) ++ task_completed m ∷ c)
    × (fold_task p ≡ some (ok s))
    × IsActive s
    × (fold_task (p ++ task_ready_for_review ∷ q) ≡ some (ok ready_for_review))

-- The review that precedes a completion, for the events after the creation.
abbrev ReviewedFrom : List DomainEvent → Type 0
ReviewedFrom es =
    (p : List DomainEvent) × (q : List DomainEvent) × (s : TaskState) × (es
      ≡ p ++ task_ready_for_review ∷ q)
    × Steps created p s
    × IsActive s

Steps-ReviewedFrom : {es : List DomainEvent} → Steps created es ready_for_review → ReviewedFrom es
unfolding Entry EntersReview
Steps-ReviewedFrom r = elim (Steps-Entry ready_for_review EntersReview enters_review r refl) [
  | inl same ↦ cc
  | inr (p, e, q, s, split, st, (name, active)) ↦ (p, q, s, rw name at split, st, active)
]

-- `born` at a creation event `k`.
abbrev Births : DomainEvent → Type 0
Births k = (es : List DomainEvent) (s : TaskState) → Steps created es s → Life (k ∷ es) s

assemble :
    (k : DomainEvent) (birth : Births k) (es a c : List DomainEvent) (m : Text)
    → es ≡ a ++ task_completed m ∷ c
    → Steps created a ready_for_review
    → ReviewedFrom a
    → Reviewed (k ∷ es)
assemble k birth es a c m split st (p, q, s, parts, before, active) = (
  k ∷ p,
  q,
  c,
  m,
  s,
  ap (◌∷◌ k) (rw parts at split),
  Life-fold_task (birth p s before),
  active,
  Life-fold_task (birth (p ++ task_ready_for_review ∷ q) ready_for_review (rw parts at st)),
)

Life-Reviewed : {es : List DomainEvent} {t : TaskState} → Life es t → t ≡ completed → Reviewed es
unfolding Entry EntersCompleted
Life-Reviewed (born {es = es} r) g =
    elim (Steps-Entry completed EntersCompleted enters_completed r g) [
      | inl same ↦ cc
      | inr (a, e, c, u, split, st, (m, name, review)) ↦
          let in_review : Steps created a ready_for_review = subst (Steps created a) review st in
          assemble _ (λ es s x. born x) es a c m (rw name at split) in_review
            (Steps-ReviewedFrom in_review)
    ]

-- A completed task was handed to review by an active run, and was completed from its review.
pub completed-Reviewed : (es : List DomainEvent) → fold_task es ≡ some (ok completed) → Reviewed es
completed-Reviewed es h = Life-Reviewed (fold_task-Life es h) refl

-- Once completed, failed or cancelled, a task stays in that state under every continuation of its stream that is
-- accepted.
pub fold_task-append_of_terminal :
    (es fs : List DomainEvent) (s t : TaskState)
    → IsTerminal s
    → fold_task es ≡ some (ok s)
    → fold_task (es ++ fs) ≡ some (ok t)
    → t ≡ s
fold_task-append_of_terminal es fs s t v h k =
    Steps-from_terminal (fold_from-Steps fs (rw (fold_task-append es fs, h) at k)) v
