-- ===== src/Tests/RebuildTests.antt =====
-- A log of a session, a task and an input, and the instances of the store's theorems at it.
use zmodbit.Prelude.{
  ◌≡◌, refl, arith, none, some, List, [], ◌∷◌, ℕ, Text, bytes, Option, Result, ok, err, map,
  if◌then◌else◌, text_eq, text_lt, get, insert,
}
use zmodbit.Domain.Events.{
  AggregateType, session, task, DomainEvent, session_created, task_created, task_input_queued,
  follow_up,
}
use zmodbit.EventStore.Envelope.{
  EventEnvelope, External, envelope_for, verify_integrity, compute_integrity_hash,
}
use zmodbit.EventStore.Tables.{Store, InputRow, still_referenced, project}
use zmodbit.EventStore.Append.{
  StoreError, sqlite, stale_lease, append, append_one, insert_event, next_sequence,
}
use zmodbit.EventStore.Rebuild.{RowReader, rebuild, reconstruct_envelope}
use zmodbit.EventStore.Projected.{project_all}
use zmodbit.EventStore.Built.{IsBuilt, append-IsBuilt}
use zmodbit.EventStore.Rebuilt.{IsTyped}
use zmodbit.EventStore.Written.{Write, appends, kept, run_writes, run_writes-IsBuilt}
use zmodbit.EventStore.Referenced.{rebuilt, rebuild-run_writes, rebuild-queued}
use zmodbit.EventStore.Verify.{verify_stream}
use zmodbit.EventStore.Verified.{IsReadable, run_appends, run_appends-verify_stream}
use zmodbit.Prelude.{All}
use zmodbit.EventStore.Leases.{
  Acquisition, append_with_lease, acquire_all, is_newest, of_session, append_with_lease-acquire_all,
  current, newest,
}
use zmodbit.EventStore.Paging.{events_since_global, session_events_since, forget_object}
use zmodbit.EventStore.Resumed
use zmodbit.EventStore.Labels.{label, state_of}
use zmodbit.EventStore.States.{state_of-fold_task}
use zmodbit.EventStore.Streams.{append-IsGapless}
use zmodbit.EventStore.Append.{by_sequence, load_stream}
use zmodbit.Domain.Task
use zmodbit.Domain.Task.{fold_task}

abbrev ext : External
ext = record { digest = λ e. e.event_id; parse_envelope = λ p. none }

abbrev parse : RowReader
parse = record { parse_id = λ id. some id; decode_payload = λ p. some p }

abbrev envelope : Text → AggregateType → Text → ℕ → Option Text → DomainEvent → EventEnvelope
envelope event type id sequence task_id payload =
    record (envelope_for event (bytes "now") type id (bytes "s") payload) {
      sequence = sequence;
      task_id = task_id;
      integrity_hash = event;
    }

opened : EventEnvelope
unfolding envelope_for
opened = envelope (bytes "a") session (bytes "s") 1 none (session_created (bytes "n"))

created : EventEnvelope
unfolding envelope_for
created =
    envelope (bytes "b") task (bytes "t") 1 (some (bytes "t"))
      (task_created (bytes "s") (bytes "t") (bytes "p") none none none)

queued : EventEnvelope
unfolding envelope_for
queued =
    envelope (bytes "c") task (bytes "t") 2 (some (bytes "t"))
      (task_input_queued (bytes "i") follow_up (bytes "hi"))

abbrev empty : Store
empty = record { events = []; command_log = []; sessions = []; tasks = []; task_inputs = [] }

abbrev store_of : Result StoreError Store → Store
store_of (ok s) = s
store_of (err f) = empty

two : Store
unfolding append append_one insert_event project opened created verify_integrity
    compute_integrity_hash get insert text_eq text_lt next_sequence
two = store_of (append ext (opened ∷ created ∷ []) empty)

two_appended : append ext (opened ∷ created ∷ []) empty ≡ ok two
unfolding two
two_appended = refl

two-IsBuilt : IsBuilt two
two-IsBuilt =
    append-IsBuilt ext (opened ∷ created ∷ []) empty two (unfold project_all in refl) two_appended

-- The same store with an input.
three : Store
unfolding two queued
three = store_of (append ext (queued ∷ []) two)

three_appended : append ext (queued ∷ []) two ≡ ok three
unfolding three
three_appended = refl

abbrev first_input : List InputRow → InputRow
first_input (i ∷ is) = i
first_input [] = record {
  input_id = [];
  task_id = [];
  mode = "";
  text = [];
  sequence = 0;
  state = "";
}

input : InputRow
unfolding three
input = first_input three.task_inputs

three_inputs : three.task_inputs ≡ input ∷ []
unfolding three input
three_inputs = refl

rebuild-queued_example : rebuild parse three ≡ (err (sqlite still_referenced), three)
rebuild-queued_example =
    rebuild-queued parse three input []
      (append-IsBuilt ext (queued ∷ []) two three two-IsBuilt three_appended) three_inputs

-- The writes of the store with an input, and one that does not count on.
abbrev writes : List Write
writes = appends (opened ∷ created ∷ []) ∷ appends (created ∷ []) ∷ appends (queued ∷ []) ∷ []

created_again : kept two (append ext (created ∷ []) two) ≡ two
unfolding append append_one insert_event project two opened created verify_integrity
    compute_integrity_hash get insert text_eq text_lt next_sequence
created_again = refl

writes-three : run_writes ext writes empty ≡ three
writes-three = rw (two_appended, created_again, three_appended) refl

run_writes-IsBuilt_example : IsBuilt (run_writes ext writes empty)
run_writes-IsBuilt_example = run_writes-IsBuilt ext writes empty (unfold project_all in refl) tt

three-IsTyped : All (IsTyped parse) three.events
unfolding three two opened created queued
three-IsTyped = ((refl, refl, refl), ((refl, refl, refl), ((refl, refl, refl), tt)))

writes-IsTyped : All (IsTyped parse) (run_writes ext writes empty).events
writes-IsTyped = rw (writes-three) three-IsTyped

rebuild-run_writes_example :
    rebuild parse (run_writes ext writes empty)
    ≡ rebuilt (run_writes ext writes empty).task_inputs (run_writes ext writes empty)
rebuild-run_writes_example = rebuild-run_writes parse ext writes tt writes-IsTyped

abbrev batches : List (List EventEnvelope)
batches = (opened ∷ created ∷ []) ∷ (created ∷ []) ∷ (queued ∷ []) ∷ []

batches-three : run_appends ext parse batches empty ≡ three
batches-three = rw (two_appended, created_again, three_appended) refl

three-IsReadable : All (IsReadable ext parse) three.events
unfolding three two opened created queued
three-IsReadable =
    (((refl, refl, refl), refl), (((refl, refl, refl), refl), (((refl, refl, refl), refl), tt)))

run_appends-verify_stream_example :
    verify_stream ext parse (run_appends ext parse batches empty).events (bytes "t") ≡ ok tt
run_appends-verify_stream_example =
    run_appends-verify_stream ext parse batches empty (bytes "t") refl
      (rw (batches-three) three-IsReadable)

abbrev acquisition : Text → Acquisition
acquisition lease = record { session_id = bytes "s"; lease_id = lease; owner = bytes "client" }

abbrev acquisitions : List Acquisition
acquisitions = acquisition (bytes "new") ∷ acquisition (bytes "old") ∷ []

append_with_lease-acquire_all_example :
    (current (acquire_all acquisitions) (bytes "s") ≡ newest (of_session (bytes "s") acquisitions))
    × (append_with_lease ext (acquire_all acquisitions) (bytes "s") (bytes "old") (queued ∷ []) two
        ≡ (if is_newest (bytes "old") (of_session (bytes "s") acquisitions)
            then append ext (queued ∷ []) two
            else err (stale_lease (bytes "s") (bytes "old"))))
append_with_lease-acquire_all_example =
    append_with_lease-acquire_all ext (bytes "s") (bytes "old") acquisitions queued [] two

follow-events_example :
    (Resumed.follow (λ o. events_since_global parse two.events o 1) 2 0 ≡ ok two.events)
    × ((id : Text)
        → Resumed.follow (λ o. session_events_since parse two.events id o 1) 2 0
          ≡ ok (map forget_object (Resumed.of_session id two.events)))
unfolding two reconstruct_envelope
follow-events_example = Resumed.follow-events parse two.events 1 2 (refl, (refl, tt)) (omega arith)

state_of-fold_task_example : state_of (bytes "t") two.tasks ≡ some (label Task.created)
unfolding two fold_task by_sequence load_stream text_eq
state_of-fold_task_example =
    state_of-fold_task two (bytes "t") Task.created two-IsBuilt
      (append-IsGapless ext (opened ∷ created ∷ []) empty two (λ id. tt) two_appended).0 (refl, tt)
      refl
