-- ===== src/Tests/AutomationTests.antt =====
-- Runs of the calendar, of cron specs and of ticks.
use zmodbit.Prelude.{
  ◌≡◌, refl, true, false, none, some, [], ◌∷◌, ◌↔◌, ◌+◌, ◌<◌, Text, bytes, text_eq, text_lt, get,
  insert, Any, arith,
}
use zmodbit.Domain.Commands.{create_session, target_aggregate}
use zmodbit.Domain.Task.{fold_task, apply_task_event}
use zmodbit.EventStore.Envelope.{
  External, Fresh, seal, envelope_for, verify_integrity, compute_integrity_hash,
}
use zmodbit.EventStore.Tables.{Store, project}
use zmodbit.EventStore.Append.{load_stream, insert_event, next_sequence}
use zmodbit.EventStore.Reads.{lifecycle_event}
use zmodbit.EventStore.Commands.{execute}
use zmodbit.Domain.Events.{system}
use zmodbit.Automation.Calendar.{civil_from_days}
use zmodbit.Automation.Cron.{
  Part, parse_part, parse_field, split_all, minute_key, field_matches, parse_cron, matches_minute,
  parse_u32,
}
use zmodbit.Automation.Fields.{Gives, parse_field_iff}
use zmodbit.Automation.Rows.{Automation, record_fire}
use zmodbit.Automation.Engine.{Identifiers, tick, spawn_task}
use zmodbit.Automation.Once.{has_fired, tick-once}

leap_day : civil_from_days 11016 ≡ record { year = 2000; month = 2; day = 29 }
unfolding civil_from_days
leap_day = refl

key_of_minute : minute_key 951827999 ≡ bytes "200002291239"
unfolding minute_key civil_from_days
key_of_minute = refl

steps_of_two : parse_field (bytes "1-5/2,30") 0 59 ≡ some (1 ∷ 3 ∷ 5 ∷ 30 ∷ [])
unfolding parse_field parse_u32 text_eq
steps_of_two = refl

odd_numbers : parse_field (bytes "1-5/2") 0 59 ≡ some (1 ∷ 3 ∷ 5 ∷ [])
unfolding parse_field parse_u32 text_eq
odd_numbers = refl

narrow : (p : Part) → parse_part 0 59 (bytes "1-5/2") ≡ some p → p.hi + p.step < 4294967296
unfolding parse_part parse_u32 text_eq
narrow p h = ground arith

parse_field_iff_example :
    (field_matches (1 ∷ 3 ∷ 5 ∷ []) 3 ≡ true) ↔ Any (Gives 0 59 3) (bytes "1-5/2" ∷ [])
unfolding split_all
parse_field_iff_example =
    parse_field_iff (bytes "1-5/2") 0 59 3 (1 ∷ 3 ∷ 5 ∷ []) odd_numbers (narrow, tt)

abbrev every_minute : Automation
every_minute = record {
  automation_id = bytes "m";
  name = bytes "n";
  cron = bytes "* * * * *";
  event_pattern = [];
  objective = bytes "o";
  enabled = true;
  last_fire_key = [];
}

abbrev ext : External
ext = record { digest = λ e. e.event_id; parse_envelope = λ p. none }

abbrev ids : Text → Fresh
ids event = record {
  aggregate = event;
  first_event = event;
  second_event = 0 ∷ event;
  now = bytes "now";
}

abbrev uuids : Text → Identifiers
uuids id = record {
  create_id = 1 ∷ id;
  create_fresh = ids (2 ∷ id);
  queue_id = 3 ∷ id;
  queue_fresh = ids (4 ∷ id);
}

abbrev with_session : Store
with_session =
    (execute ext (ids (bytes "s"))
      (record {
        command_id = bytes "1";
        actor = record { actor_type = system; actor_id = bytes "core" };
        payload = create_session (bytes "n");
      })
      (record { events = []; command_log = []; sessions = []; tasks = []; task_inputs = [] })).1

fires_now : has_fired (bytes "m") (tick ext uuids 60 (every_minute ∷ []) with_session) ≡ true
unfolding tick spawn_task execute insert_event project seal envelope_for verify_integrity
    compute_integrity_hash get insert text_eq text_lt load_stream fold_task apply_task_event
    next_sequence lifecycle_event target_aggregate parse_cron matches_minute minute_key
    civil_from_days record_fire
fires_now = refl

same_minute : minute_key 119 ≡ minute_key 60
unfolding minute_key civil_from_days
same_minute = refl

tick-once_example :
    has_fired
      (bytes "m")
      (tick ext uuids 119 (tick ext uuids 60 (every_minute ∷ []) with_session).rows with_session)
    ≡ false
tick-once_example =
    tick-once ext uuids uuids 60 119 (bytes "m") (every_minute ∷ []) with_session with_session
      (tt, tt) ((λ h. refl), tt) same_minute fires_now
