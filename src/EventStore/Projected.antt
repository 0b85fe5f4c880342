-- ===== src/EventStore/Projected.antt =====
-- crates/event-store/src/projections.rs: the tables against the log that they are derived from.
use zmodbit.Prelude.{
  ◌≡◌, refl, List, [], ◌∷◌, Map, push, Result, ok, err, Result-cases, inl, inr, arith,
}
use zmodbit.Domain.Events.{
  session, task, run, turn, run_step, DomainEvent, session_created, task_created, task_input_queued,
}
use zmodbit.EventStore.Envelope.{EventEnvelope}
use zmodbit.EventStore.Tables.{Store, SqlError, LogEntry, project_session, project_task, project}

-- The log of a store, set to another one.
abbrev pub frame : List EventEnvelope → Map LogEntry → Store → Store
frame events log s = record s { events = events; command_log = log }

abbrev pub framed :
    List EventEnvelope → Map LogEntry → Result SqlError Store → Result SqlError Store
framed events log (ok s) = ok (frame events log s)
framed events log (err f) = err f

project_session-frame :
    (e : EventEnvelope) (E : List EventEnvelope) (L : Map LogEntry) (s : Store) (p : DomainEvent)
    → project_session e (frame E L s) p ≡ framed E L (project_session e s p)
unfolding project_session
project_session-frame e E L s (session_created _) = ground arith
project_session-frame e E L s _ = refl

project_task-frame :
    (e : EventEnvelope) (E : List EventEnvelope) (L : Map LogEntry) (s : Store) (p : DomainEvent)
    → project_task e (frame E L s) p ≡ framed E L (project_task e s p)
unfolding project_task
project_task-frame e E L s (task_created _ _ _ _ _ _) = ground arith
project_task-frame e E L s (task_input_queued _ _ _) = ground arith
project_task-frame e E L s _ = refl

-- A projection neither reads nor changes the log.
pub project-frame :
    (e : EventEnvelope) (E : List EventEnvelope) (L : Map LogEntry) (s : Store)
    → project e (frame E L s) ≡ framed E L (project e s)
unfolding project
project-frame e E L s =
    elim e.aggregate_type
      as (λ t.
        (elim t [
          | session ↦ project_session e (frame E L s) e.payload
          | task ↦ project_task e (frame E L s) e.payload
          | run ↦ ok (frame E L s)
          | turn ↦ ok (frame E L s)
          | run_step ↦ ok (frame E L s)
        ])
        ≡ framed E L (elim t [
          | session ↦ project_session e s e.payload
          | task ↦ project_task e s e.payload
          | run ↦ ok s
          | turn ↦ ok s
          | run_step ↦ ok s
        ])) [
          | session ↦ project_session-frame e E L s e.payload
          | task ↦ project_task-frame e E L s e.payload
          | run ↦ refl
          | turn ↦ refl
          | run_step ↦ refl
        ]

-- The projection of a whole log.
unfoldable pub project_all : List EventEnvelope → Store → Result SqlError Store
project_all [] s = ok s
project_all (e ∷ es) s = elim (project e s) [ ok s' ↦ project_all es s' | err f ↦ err f ]

pub project_all-frame :
    (es E : List EventEnvelope) (L : Map LogEntry) (s t : Store)
    → project_all es s ≡ ok t
    → project_all es (frame E L s) ≡ ok (frame E L t)
unfolding project_all
project_all-frame [] E L s t h = ground arith
project_all-frame (e ∷ es) E L s t h = elim (Result-cases (project e s)) [
  | inr (f, q) ↦ absurd (ground arith)
  | inl (u, q) ↦ ground (arith, project-frame e E L s, project_all-frame es E L u t)
]

pub project_all-push :
    (es : List EventEnvelope) (e : EventEnvelope) (s t : Store)
    → project_all es s ≡ ok t
    → project_all (push es e) s ≡ project e t
unfolding project_all
project_all-push [] e s t h = elim (Result-cases (project e s)) [
  | inr (f, q) ↦ ground arith
  | inl (u, q) ↦ ground arith
]
project_all-push (d ∷ es) e s t h = elim (Result-cases (project d s)) [
  | inr (f, q) ↦ absurd (ground arith)
  | inl (u, q) ↦ ground (arith, project_all-push es e u t)
]
