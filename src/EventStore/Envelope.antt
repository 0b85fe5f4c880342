-- ===== src/EventStore/Envelope.antt =====
-- crates/domain/src/events.rs (EventEnvelope) and `envelope_for` of crates/event-store/src/store.rs.
-- What SHA-256 over the canonical JSON gives, and what JSON decoding of a stored payload as an envelope gives, are
-- the parameters of `External`.
use Prim.Native.String.{String}
use zmodbit.Prelude.{◌≡◌, Bool, true, Option, none, [], ℕ, Text, text_eq, text_eq_refl, bytes}
use zmodbit.Domain.Events.{AggregateType, Actor, system, DomainEvent, event_type_of}

pub record EventEnvelope : Type 0 where
  pub event_id : Text
  pub session_id : Text
  pub task_id : Option Text
  pub run_id : Option Text
  pub turn_id : Option Text
  pub step_id : Option Text
  pub aggregate_type : AggregateType
  pub aggregate_id : Text
  pub sequence : ℕ
  pub event_type : String
  pub schema_version : ℕ × ℕ
  pub occurred_at : Text
  pub actor : Actor
  pub causation_id : Option Text
  pub correlation_id : Option Text
  pub payload : DomainEvent
  pub payload_object_hash : Option Text
  pub integrity_hash : Text

pub record External : Type 0 where
  pub digest : EventEnvelope → Text
  pub parse_envelope : DomainEvent → Option EventEnvelope

-- What the clock and the generator of identifiers give to one command.
pub record Fresh : Type 0 where
  pub aggregate : Text
  pub first_event : Text
  pub second_event : Text
  pub now : Text

abbrev schema_version : ℕ × ℕ
schema_version = (1, 0)

-- `sequence` and the seal are set by the caller before the append.
unfoldable pub envelope_for :
    Text → Text → AggregateType → Text → Text → DomainEvent → EventEnvelope
envelope_for event_id now aggregate_type aggregate_id session_id payload = record {
  event_id = event_id;
  session_id = session_id;
  task_id = none;
  run_id = none;
  turn_id = none;
  step_id = none;
  aggregate_type = aggregate_type;
  aggregate_id = aggregate_id;
  sequence = 0;
  event_type = event_type_of payload;
  schema_version = schema_version;
  occurred_at = now;
  actor = record { actor_type = system; actor_id = bytes "core" };
  causation_id = none;
  correlation_id = none;
  payload = payload;
  payload_object_hash = none;
  integrity_hash = [];
}

module _ (x : External) where
  -- The digest of the canonical bytes, which leave the integrity hash out.
  unfoldable pub compute_integrity_hash : EventEnvelope → Text
  compute_integrity_hash e = x.digest (record e { integrity_hash = [] })

  unfoldable pub seal : EventEnvelope → EventEnvelope
  seal e = record e { integrity_hash = compute_integrity_hash e }

  unfoldable pub verify_integrity : EventEnvelope → Bool
  verify_integrity e = text_eq e.integrity_hash (compute_integrity_hash e)

  pub verify_integrity-seal : (e : EventEnvelope) → verify_integrity (seal e) ≡ true
  unfolding verify_integrity seal compute_integrity_hash
  verify_integrity-seal e = text_eq_refl (x.digest (record e { integrity_hash = [] }))
