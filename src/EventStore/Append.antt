-- ===== src/EventStore/Append.antt =====
-- crates/event-store/src/store.rs: the append of envelopes to their aggregates' streams.
use zmodbit.Prelude.{
  Option, none, some, List, [], ◌∷◌, ℕ, ◌+◌, max, Bool, not, ◌&&◌, Text, text_eq, Map, get, insert,
  unwrap_or, any, push, retain, leb, ◌==◌, if◌then◌else◌, Result, ok, err, ◌>>=◌, ◌>>◌, ensure,
}
use zmodbit.EventStore.Envelope.{EventEnvelope, External, verify_integrity}
use zmodbit.EventStore.Tables.{Store, SqlError, duplicate_event, project}

pub data StoreError : Type 0 where
  sequence_conflict : (aggregate_id : Text) (expected actual : ℕ) → StoreError
  integrity_mismatch : (event_id : Text) → StoreError
  sqlite : SqlError → StoreError
  uuid : (id : Text) → StoreError
  stale_lease : (session_id lease_id : Text) → StoreError
  io : StoreError

abbrev pub of_aggregate : Text → List EventEnvelope → List EventEnvelope
of_aggregate id = retain λ e. text_eq e.aggregate_id id

abbrev join_max : ℕ → Option ℕ → Option ℕ
join_max n none = some n
join_max n (some m) = some (max n m)

-- `SELECT MAX(sequence) …`: NULL over no row.
unfoldable pub max_sequence : List EventEnvelope → Option ℕ
max_sequence [] = none
max_sequence (e ∷ es) = join_max e.sequence (max_sequence es)

abbrev pub after : Option ℕ → ℕ
after none = 1
after (some v) = v + 1

unfoldable pub next_sequence : List EventEnvelope → Text → ℕ
unfolding max_sequence
next_sequence events id = after (max_sequence (of_aggregate id events))

-- `ORDER BY sequence`.
unfoldable pub place : EventEnvelope → List EventEnvelope → List EventEnvelope
place e [] = e ∷ []
place e (d ∷ ds) = if leb e.sequence d.sequence then e ∷ d ∷ ds else d ∷ place e ds

unfoldable pub by_sequence : List EventEnvelope → List EventEnvelope
unfolding place
by_sequence [] = []
by_sequence (e ∷ es) = place e (by_sequence es)

unfoldable pub load_stream : List EventEnvelope → Text → List EventEnvelope
unfolding by_sequence
load_stream events id = by_sequence (of_aggregate id events)

-- The constraints of the `events` table: PRIMARY KEY (event_id), UNIQUE (aggregate_id, sequence).
abbrev pub breaks_key : EventEnvelope → EventEnvelope → Bool
breaks_key e d = text_eq d.event_id e.event_id

abbrev pub breaks_unique : EventEnvelope → EventEnvelope → Bool
breaks_unique e d = text_eq d.aggregate_id e.aggregate_id && d.sequence == e.sequence

-- The number staged for the aggregate, or the one that continues the table.
abbrev pub expected_in : Map ℕ → EventEnvelope → Store → ℕ
expected_in sequences e s =
    unwrap_or (get e.aggregate_id sequences) (next_sequence s.events e.aggregate_id)

module _ (x : External) where
  -- The row of an event; its integrity is checked first.
  unfoldable pub insert_event : EventEnvelope → Store → Result StoreError Store
  insert_event e s = do
    ensure (verify_integrity x e) (integrity_mismatch e.event_id)
    ensure (not (any (breaks_key e) s.events)) (sqlite duplicate_event)
    ensure (not (any (breaks_unique e) s.events)) (sqlite duplicate_event)
    ok (record s { events = push s.events e })

  abbrev pub projected : Result SqlError Store → Result StoreError Store
  projected (ok s) = ok s
  projected (err e) = err (sqlite e)

  -- One round of `append`'s loop; `sequences` is the source's map of the sequences staged so far.
  unfoldable pub append_one : Map ℕ → EventEnvelope → Store → Result StoreError (Map ℕ × Store)
  append_one sequences e s = do
    ensure (e.sequence == expected_in sequences e s)
        (sequence_conflict e.aggregate_id e.sequence (next_sequence s.events e.aggregate_id))
    s' ← insert_event e s
    s'' ← projected (project e s')
    ok (insert e.aggregate_id (expected_in sequences e s + 1) sequences, s'')

  unfoldable pub append_loop : Map ℕ → List EventEnvelope → Store → Result StoreError Store
  append_loop sequences [] s = ok s
  append_loop sequences (e ∷ es) s = elim (append_one sequences e s) [
    | ok (sequences', s') ↦ append_loop sequences' es s'
    | err x ↦ err x
  ]

  -- The transaction commits only at its end, so an error leaves the store as it was.
  unfoldable pub append : List EventEnvelope → Store → Result StoreError Store
  unfolding append_loop
  append events s = append_loop [] events s
