-- ===== src/EventStore/Rounds.antt =====
-- crates/event-store/src/store.rs: what one round of the append's loop does.
use zmodbit.Prelude.{
  ◌≡◌, refl, ℕ, ◌+◌, Map, insert, push, arith, Result, ok, err, Result-cases, inl, inr,
}
use zmodbit.Domain.Events.{
  session, task, run, turn, run_step, DomainEvent, session_created, task_created, task_input_queued,
}
use zmodbit.EventStore.Envelope.{EventEnvelope, External}
use zmodbit.EventStore.Tables.{Store, SqlError, project_session, project_task, project}
use zmodbit.EventStore.Append.{insert_event, expected_in, projected, append_one}

abbrev pub KeepsEvents : Store → Result SqlError Store → Type 0
KeepsEvents s (ok s') = s'.events ≡ s.events
KeepsEvents s (err e) = Unit

pub project_session-KeepsEvents :
    (e : EventEnvelope) (s : Store) (p : DomainEvent) → KeepsEvents s (project_session e s p)
unfolding project_session
project_session-KeepsEvents e s (session_created _) = ground arith
project_session-KeepsEvents e s _ = refl

pub project_task-KeepsEvents :
    (e : EventEnvelope) (s : Store) (p : DomainEvent) → KeepsEvents s (project_task e s p)
unfolding project_task
project_task-KeepsEvents e s (task_created _ _ _ _ _ _) = ground arith
project_task-KeepsEvents e s (task_input_queued _ _ _) = ground arith
project_task-KeepsEvents e s _ = refl

pub project-KeepsEvents : (e : EventEnvelope) (s : Store) → KeepsEvents s (project e s)
unfolding project
project-KeepsEvents e s =
    elim e.aggregate_type
      as (λ t. KeepsEvents s (elim t [
        | session ↦ project_session e s e.payload
        | task ↦ project_task e s e.payload
        | run ↦ ok s
        | turn ↦ ok s
        | run_step ↦ ok s
      ])) [
        | session ↦ project_session-KeepsEvents e s e.payload
        | task ↦ project_task-KeepsEvents e s e.payload
        | run ↦ refl
        | turn ↦ refl
        | run_step ↦ refl
      ]

module _ (x : External) where
  pub insert_event-ok :
      (e : EventEnvelope) (s t : Store)
      → insert_event x e s ≡ ok t
      → t ≡ record s { events = push s.events e }
  unfolding insert_event
  insert_event-ok e s t h = ground arith

  pub project-events :
      (e : EventEnvelope) (s t : Store) → projected x (project e s) ≡ ok t → t.events ≡ s.events
  project-events e s t h = ground (arith, project-KeepsEvents e s)

  -- What one successful round of the loop does.
  abbrev pub Round : Map ℕ → EventEnvelope → Store → Map ℕ × Store → Type 0
  Round seqs e s (seqs', s') =
      (e.sequence ≡ expected_in seqs e s)
      × (s'.events ≡ push s.events e)
      × (seqs' ≡ insert e.aggregate_id (expected_in seqs e s + 1) seqs)

  pub append_one-Round :
      (seqs : Map ℕ) (e : EventEnvelope) (s : Store) (r : Map ℕ × Store)
      → append_one x seqs e s ≡ ok r
      → Round seqs e s r
  unfolding append_one
  append_one-Round seqs e s (seqs', s') h = elim (Result-cases (insert_event x e s)) [
    | inr (f, q) ↦ ground arith
    | inl (t, q) ↦ elim (Result-cases (projected x (project e t))) [
      | inr (f, p) ↦ ground arith
      | inl (u, p) ↦ ground (arith, insert_event-ok e s t q, project-events e t u p)
    ]
  ]
