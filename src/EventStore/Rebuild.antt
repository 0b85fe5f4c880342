-- ===== src/EventStore/Rebuild.antt =====
-- crates/event-store/src/projections.rs: rebuild, and `reconstruct_envelope` of store.rs. The columns of an event row
-- are the fields of its envelope; its two version numbers are read back as they were printed, and the other columns that
-- are texts in the table are parsed. `rebuild` runs outside a transaction, so an error keeps what was done before.
use Prim.Native.String.{String}
use text.Mathlib.Text.{◌==◌ as str_eq}
use zmodbit.Prelude.{
  none, some, List, [], ◌∷◌, ℕ, ◌+◌, Option, Text, text_eq, any, Bool, if◌then◌else◌, Result, ok,
  err, ◌>>=◌, ok_or,
}
use zmodbit.Domain.Events.{
  AggregateType, session, task, run, turn, run_step, DomainEvent, aggregate_as_str, actor_as_str,
  actor_parse,
}
use zmodbit.EventStore.Envelope.{EventEnvelope}
use zmodbit.EventStore.Tables.{Store, SqlError, still_referenced, project}
use zmodbit.EventStore.Append.{StoreError, sqlite, uuid, io, integrity_mismatch}

-- `DELETE FROM tasks` under `foreign_keys=ON`: a task that an input refers to cannot be deleted.
abbrev pub is_referenced : Store → Bool
is_referenced s = any (λ i. any (λ t. text_eq t.task_id i.task_id) s.tasks) s.task_inputs

unfoldable pub delete_projections : Store → Result SqlError Store
delete_projections s =
    if is_referenced s then err still_referenced else ok (record s { tasks = []; sessions = [] })

-- The match on the column `aggregate_type`.
unfoldable pub aggregate_parse : String → Option AggregateType
aggregate_parse s =
    if str_eq s "session"
    then some session
    else if str_eq s "task"
    then some task
    else if str_eq s "run"
    then some run
    else if str_eq s "turn"
    then some turn
    else if str_eq s "run_step"
    then some run_step
    else none

-- What reading a row back relies on: parsing an identifier as a UUID and printing it again, and decoding the JSON that
-- a payload was stored as; none where that fails.
pub record RowReader : Type 0 where
  pub parse_id : Text → Option Text
  pub decode_payload : DomainEvent → Option DomainEvent

module _ (row : RowReader) where
  abbrev pub parsed : Text → Result StoreError Text
  parsed id = ok_or (row.parse_id id) (uuid id)

  -- The typed id of the aggregate, by its type.
  abbrev pub with_ids : EventEnvelope → AggregateType → Result StoreError EventEnvelope
  with_ids e session =
      ok (record e { task_id = none; run_id = none; turn_id = none; step_id = none })
  with_ids e task = do
    id ← parsed e.aggregate_id
    ok (record e { task_id = some id; run_id = none; turn_id = none; step_id = none })
  with_ids e run = do
    id ← parsed e.aggregate_id
    ok (record e { task_id = none; run_id = some id; turn_id = none; step_id = none })
  with_ids e turn = do
    id ← parsed e.aggregate_id
    ok (record e { task_id = none; run_id = none; turn_id = some id; step_id = none })
  with_ids e run_step = do
    id ← parsed e.aggregate_id
    ok (record e { task_id = none; run_id = none; turn_id = none; step_id = some id })

  unfoldable pub reconstruct_envelope : EventEnvelope → Result StoreError EventEnvelope
  unfolding aggregate_parse aggregate_as_str actor_parse actor_as_str
  reconstruct_envelope e = do
    aggregate_type ← ok_or (aggregate_parse (aggregate_as_str e.aggregate_type)) io
    e' ← with_ids e aggregate_type
    payload ← ok_or (row.decode_payload e.payload) (integrity_mismatch e.event_id)
    session_id ← parsed e.session_id
    actor_type ← ok_or (actor_parse (actor_as_str e.actor.actor_type)) io
    ok (record e' {
      session_id = session_id;
      aggregate_type = aggregate_type;
      actor = record { actor_type = actor_type; actor_id = e.actor.actor_id };
      payload = payload;
    })

  unfoldable pub rebuild_loop : List EventEnvelope → ℕ → Store → Result StoreError ℕ × Store
  rebuild_loop [] applied s = (ok applied, s)
  rebuild_loop (e ∷ es) applied s = elim (reconstruct_envelope e) [
    | err f ↦ (err f, s)
    | ok e' ↦ elim (project e' s) [
      | err f ↦ (err (sqlite f), s)
      | ok s' ↦ rebuild_loop es (applied + 1) s'
    ]
  ]

  unfoldable pub rebuild : Store → Result StoreError ℕ × Store
  unfolding delete_projections rebuild_loop reconstruct_envelope
  rebuild s = elim (delete_projections s) [
    | err f ↦ (err (sqlite f), s)
    | ok s' ↦ rebuild_loop s.events 0 s'
  ]
