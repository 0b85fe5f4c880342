-- ===== src/EventStore/Verify.antt =====
-- crates/event-store/src/store.rs: load, verify_stream, preview_rewind.
use zmodbit.Prelude.{
  List, [], ◌∷◌, ℕ, suc, Text, retain, ltb, ◌==◌, Result, ok, ◌>>=◌, ◌>>◌, ensure,
}
use zmodbit.EventStore.Envelope.{EventEnvelope, External, verify_integrity}
use zmodbit.EventStore.Append.{
  StoreError, sequence_conflict, integrity_mismatch, load_stream, of_aggregate, by_sequence,
}
use zmodbit.EventStore.Rebuild.{RowReader, reconstruct_envelope}

-- The row's `sequence` is above the target, by the statement's WHERE; the loop tests it again.
abbrev later_ids : Text → ℕ → List EventEnvelope → Result StoreError (List Text)
later_ids id to_sequence [] = ok []
later_ids id to_sequence (e ∷ es) = do
  ensure (ltb to_sequence e.sequence) (sequence_conflict id to_sequence e.sequence)
  out ← later_ids id to_sequence es
  ok (e.event_id ∷ out)

unfoldable pub preview_rewind : List EventEnvelope → Text → ℕ → Result StoreError (List Text)
preview_rewind events id to_sequence =
    later_ids id to_sequence
      (by_sequence (retain (λ e. ltb to_sequence e.sequence) (of_aggregate id events)))

module _ (x : External) (row : RowReader) where
  abbrev pub reconstruct_all : List EventEnvelope → Result StoreError (List EventEnvelope)
  reconstruct_all [] = ok []
  reconstruct_all (e ∷ es) = do
    e' ← reconstruct_envelope row e
    es' ← reconstruct_all es
    ok (e' ∷ es')

  unfoldable pub load : List EventEnvelope → Text → Result StoreError (List EventEnvelope)
  load events id = reconstruct_all (load_stream events id)

  -- `next` is `idx as u64 + 1`.
  abbrev pub verify_loop : Text → ℕ → List EventEnvelope → Result StoreError (Unit {0})
  verify_loop id next [] = ok tt
  verify_loop id next (e ∷ es) = do
    ensure (e.sequence == next) (sequence_conflict id next e.sequence)
    ensure (verify_integrity x e) (integrity_mismatch e.event_id)
    verify_loop id (suc next) es

  unfoldable pub verify_stream : List EventEnvelope → Text → Result StoreError (Unit {0})
  unfolding load
  verify_stream events id = do loaded ← load events id; verify_loop id 1 loaded
