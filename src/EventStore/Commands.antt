-- ===== src/EventStore/Commands.antt =====
-- crates/event-store/src/commands.rs: the idempotent command processor. The SQL transaction is the state `Store`;
-- like the source's, it is committed whatever `plan_and_append` returns, so an error keeps the rows written before.
use zmodbit.Prelude.{
  none, some, List, [], ◌∷◌, ℕ, ◌+◌, Text, Map, get, insert, unwrap_or, push, ◌==◌, if◌then◌else◌,
  Result, ok, err,
}
use zmodbit.Domain.Commands.{CommandPayload, Command, kind}
use zmodbit.EventStore.Envelope.{EventEnvelope, External, Fresh}
use zmodbit.EventStore.Tables.{Store, LogStatus, logged_applied, logged_rejected, LogEntry, project}
use zmodbit.EventStore.Append.{sequence_conflict, sqlite, next_sequence, insert_event}
use zmodbit.EventStore.Reads.{
  Reason, Outcome, storage, applied, replayed, rejected, rejected_before,
}
use zmodbit.EventStore.Plan.{plan}

-- The row of `command_log`.
abbrev pub logged : CommandPayload → Result Reason (List Text) → LogEntry
logged payload (ok ids) = record {
  command_type = kind payload;
  status = logged_applied;
  result_event_ids = ids;
}
logged payload (err r) = record {
  command_type = kind payload;
  status = logged_rejected;
  result_event_ids = [];
}

abbrev pub outcome_of : Result Reason (List Text) → Outcome
outcome_of (ok ids) = applied ids
outcome_of (err r) = rejected r

abbrev pub run_new : Command → Result Reason (List Text) × Store → Outcome × Store
run_new c (r, s') = (
  outcome_of r,
  record s' { command_log = insert c.command_id (logged c.payload r) s'.command_log },
)

abbrev pub replay : LogStatus → List Text → Outcome
replay logged_applied ids = replayed ids
replay logged_rejected ids = rejected_before

module _ (x : External) (fresh : Fresh) where
  -- The optimistic check of the staged numbers against the table, before anything is inserted.
  unfoldable pub check_continuity :
      List EventEnvelope → Map ℕ → List EventEnvelope → Result Reason (Unit {0})
  check_continuity events expected [] = ok tt
  check_continuity events expected (e ∷ es) =
      let n = unwrap_or (get e.aggregate_id expected) (next_sequence events e.aggregate_id) in
      let rest = check_continuity events (insert e.aggregate_id (e.sequence + 1) expected) es in
      if e.sequence == n
      then rest
      else err (storage (sequence_conflict e.aggregate_id n e.sequence))

  -- The loop that inserts and projects. Rows written before an error stay.
  unfoldable pub insert_all :
      List EventEnvelope → List Text → Store → Result Reason (List Text) × Store
  insert_all [] ids s = (ok ids, s)
  insert_all (e ∷ es) ids s = elim (insert_event x e s) [
    | err f ↦ (err (storage f), s)
    | ok s' ↦ elim (project e s') [
      | err f ↦ (err (storage (sqlite f)), s')
      | ok s'' ↦ insert_all es (push ids e.event_id) s''
    ]
  ]

  unfoldable pub append_planned :
      Store → Result Reason (List EventEnvelope) → Result Reason (List Text) × Store
  unfolding check_continuity insert_all
  append_planned s (err r) = (err r, s)
  append_planned s (ok es) = elim (check_continuity s.events [] es) [
    | err r ↦ (err r, s)
    | ok _ ↦ insert_all es [] s
  ]

  unfoldable pub plan_and_append : CommandPayload → Store → Result Reason (List Text) × Store
  unfolding plan append_planned
  plan_and_append payload s = append_planned s (plan x fresh s.events payload)

  unfoldable pub execute : Command → Store → Outcome × Store
  unfolding plan_and_append
  execute c s = elim (get c.command_id s.command_log) [
    | some entry ↦ (replay entry.status entry.result_event_ids, s)
    | none ↦ run_new c (plan_and_append c.payload s)
  ]
