-- ===== src/EventStore/Paging.antt =====
-- crates/event-store/src/store.rs: session_events_since, events_since_global. The rowid of an event is its place in
-- the table, from 1, as no statement deletes an event.
use zmodbit.Prelude.{
  true, none, List, [], ◌∷◌, ℕ, suc, Bool, Text, text_eq, take, retain, ltb, Result, ok, ◌>>=◌,
}
use zmodbit.EventStore.Envelope.{EventEnvelope}
use zmodbit.EventStore.Append.{StoreError}
use zmodbit.EventStore.Rebuild.{RowReader, reconstruct_envelope}

abbrev pub Row : Type 0
Row = ℕ × EventEnvelope

abbrev pub numbered : ℕ → List EventEnvelope → List Row
numbered rowid [] = []
numbered rowid (e ∷ es) = (rowid, e) ∷ numbered (suc rowid) es

-- The rows that pass the statement's own test, then those with `rowid > ?`.
abbrev pub selected : (EventEnvelope → Bool) → List EventEnvelope → List Row
selected p events = retain (λ r. p (r.1)) (numbered 1 events)

abbrev pub after : ℕ → List Row → List Row
after offset = retain λ r. ltb offset (r.0)

abbrev pub forget_object : EventEnvelope → EventEnvelope
forget_object e = record e { payload_object_hash = none }

module _ (row : RowReader) where
  -- The loop over the rows; `f` is what it does to each envelope.
  abbrev pub page_loop :
      (EventEnvelope → EventEnvelope) → List Row → ℕ → Result StoreError (List EventEnvelope × ℕ)
  page_loop f [] last_offset = ok ([], last_offset)
  page_loop f ((offset, e) ∷ rows) last_offset = do
    e' ← reconstruct_envelope row e
    rest ← page_loop f rows offset
    ok (f e' ∷ rest.0, rest.1)

  unfoldable pub events_since_global :
      List EventEnvelope → ℕ → ℕ → Result StoreError (List EventEnvelope × ℕ)
  events_since_global events after_offset limit =
      page_loop (λ e. e) (take limit (after after_offset (selected (λ e. true) events)))
        after_offset

  unfoldable pub session_events_since :
      List EventEnvelope → Text → ℕ → ℕ → Result StoreError (List EventEnvelope × ℕ)
  session_events_since events session_id after_offset limit =
      page_loop forget_object
        (take limit (after after_offset (selected (λ e. text_eq e.session_id session_id) events)))
        after_offset
