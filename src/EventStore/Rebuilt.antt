-- ===== src/EventStore/Rebuilt.antt =====
-- crates/event-store/src/projections.rs: what `rebuild` makes of tables that are the projection of their log.
use zmodbit.Prelude.{
  ◌≡◌, refl, ◌∙◌, some, none, List, [], ◌∷◌, ℕ, ◌+◌, Option, Text, All, length, Result, ok,
  Result-cases, inl, inr, arith,
}
use zmodbit.Domain.Events.{
  AggregateType, session, task, run, turn, run_step, DomainEvent, session_created, task_created,
  task_input_queued, aggregate_as_str, actor_as_str, actor_parse_iff,
}
use zmodbit.EventStore.Envelope.{EventEnvelope}
use zmodbit.EventStore.Tables.{Store, project_session, project_task, project}
use zmodbit.EventStore.Append.{StoreError}
use zmodbit.EventStore.Projected.{project_all}
use zmodbit.EventStore.Built.{cleared, IsBuilt}
use zmodbit.EventStore.Rebuild.{
  RowReader, aggregate_parse, with_ids, delete_projections, reconstruct_envelope, rebuild_loop,
  rebuild,
}

abbrev pub with_typed_ids :
    Option Text → Option Text → Option Text → Option Text → EventEnvelope → EventEnvelope
with_typed_ids a b c d e = record e { task_id = a; run_id = b; turn_id = c; step_id = d }

project_session-ids :
    (a b c d : Option Text) (e : EventEnvelope) (s : Store) (p : DomainEvent)
    → project_session (with_typed_ids a b c d e) s p ≡ project_session e s p
unfolding project_session
project_session-ids a b c d e s (session_created _) = refl
project_session-ids a b c d e s _ = refl

project_task-ids :
    (a b c d : Option Text) (e : EventEnvelope) (s : Store) (p : DomainEvent)
    → project_task (with_typed_ids a b c d e) s p ≡ project_task e s p
unfolding project_task
project_task-ids a b c d e s (task_created _ _ _ _ _ _) = refl
project_task-ids a b c d e s (task_input_queued _ _ _) = refl
project_task-ids a b c d e s _ = refl

project-ids :
    (a b c d : Option Text) (e : EventEnvelope) (s : Store)
    → project (with_typed_ids a b c d e) s ≡ project e s
unfolding project
project-ids a b c d e s =
    elim e.aggregate_type
      as (λ t.
        (elim t [
          | session ↦ project_session (with_typed_ids a b c d e) s e.payload
          | task ↦ project_task (with_typed_ids a b c d e) s e.payload
          | run ↦ ok s
          | turn ↦ ok s
          | run_step ↦ ok s
        ])
        ≡ (elim t [
          | session ↦ project_session e s e.payload
          | task ↦ project_task e s e.payload
          | run ↦ ok s
          | turn ↦ ok s
          | run_step ↦ ok s
        ])) [
          | session ↦ project_session-ids a b c d e s e.payload
          | task ↦ project_task-ids a b c d e s e.payload
          | run ↦ refl
          | turn ↦ refl
          | run_step ↦ refl
        ]

delete_projections-unreferenced :
    (s : Store) → s.task_inputs ≡ [] → delete_projections s ≡ ok (cleared s)
unfolding delete_projections
delete_projections-unreferenced s h = ground arith

aggregate_parse-as_str : (t : AggregateType) → aggregate_parse (aggregate_as_str t) ≡ some t
unfolding aggregate_parse aggregate_as_str
aggregate_parse-as_str session = refl
aggregate_parse-as_str task = refl
aggregate_parse-as_str run = refl
aggregate_parse-as_str turn = refl
aggregate_parse-as_str run_step = refl

module _ (row : RowReader) where
  -- The identifiers of the row are printed UUIDs, which parsing and printing gives back, and its payload decodes to the
  -- event that was stored.
  abbrev pub IsTyped : EventEnvelope → Type 0
  IsTyped e =
      (row.parse_id e.session_id ≡ some e.session_id)
      × (row.parse_id e.aggregate_id ≡ some e.aggregate_id)
      × (row.decode_payload e.payload ≡ some e.payload)

  -- An envelope that differs from another one in its typed identifiers only.
  abbrev Retyped : EventEnvelope → Result StoreError EventEnvelope → Type 0
  Retyped e r =
      (a : Option Text) × (b : Option Text) × (c : Option Text) × (d : Option Text) × (r
        ≡ ok (with_typed_ids a b c d e))

  with_ids-Retyped :
      (e : EventEnvelope) (t : AggregateType)
      → row.parse_id e.aggregate_id ≡ some e.aggregate_id
      → Retyped e (with_ids row e t)
  with_ids-Retyped e session h = (none, none, none, none, refl)
  with_ids-Retyped e task h = (some e.aggregate_id, none, none, none, rw (h) refl)
  with_ids-Retyped e run h = (none, some e.aggregate_id, none, none, rw (h) refl)
  with_ids-Retyped e turn h = (none, none, some e.aggregate_id, none, rw (h) refl)
  with_ids-Retyped e run_step h = (none, none, none, some e.aggregate_id, rw (h) refl)

  pub reconstruct_envelope-with_ids :
      (e : EventEnvelope) → IsTyped e → reconstruct_envelope row e ≡ with_ids row e e.aggregate_type
  unfolding reconstruct_envelope
  reconstruct_envelope-with_ids e (hs, ha, hp) =
      let (a, b, c, d, q) = with_ids-Retyped e e.aggregate_type ha in
      rw
        (
          aggregate_parse-as_str e.aggregate_type,
          q,
          hp,
          hs,
          (actor_parse_iff (actor_as_str e.actor.actor_type) e.actor.actor_type).1 refl,
        )
        refl

  reconstruct_envelope-Retyped :
      (e : EventEnvelope) → IsTyped e → Retyped e (reconstruct_envelope row e)
  reconstruct_envelope-Retyped e h =
      let (a, b, c, d, q) = with_ids-Retyped e e.aggregate_type h.1 in
      (a, b, c, d, reconstruct_envelope-with_ids e h ∙ q)

  rebuild_loop-project_all :
      (es : List EventEnvelope) (n : ℕ) (s t : Store)
      → All IsTyped es
      → project_all es s ≡ ok t
      → rebuild_loop row es n s ≡ (ok (n + length es), t)
  unfolding rebuild_loop project_all
  rebuild_loop-project_all [] n s t ids h = ground arith
  rebuild_loop-project_all (e ∷ es) n s t ids h = elim (Result-cases (project e s)) [
    | inr (f, q) ↦ absurd (ground arith)
    | inl (u, q) ↦
        let (a, b, c, d, r) = reconstruct_envelope-Retyped e (ids.0) in
        let rest = rebuild_loop-project_all es (n + 1) u t (ids.1) (ground arith) in
        ground (arith, r, project-ids a b c d e s, q, rest)
  ]

  -- Tables that are the projection of their log, without an input, are what `rebuild` makes of them again.
  pub rebuild-IsBuilt :
      (s : Store)
      → IsBuilt s
      → s.task_inputs ≡ []
      → All IsTyped s.events
      → rebuild row s ≡ (ok (length s.events), s)
  unfolding rebuild
  rebuild-IsBuilt s b none_queued ids =
      let start = delete_projections-unreferenced s none_queued in
      let loop = rebuild_loop-project_all s.events 0 (cleared s) s ids b in
      ground (arith, start, loop)
