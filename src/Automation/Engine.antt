-- ===== src/Automation/Engine.antt =====
-- crates/core-runtime/src/automation.rs: AutomationEngine over the table of automations and the event store. What the
-- clock and the generator of identifiers give when an automation fires is an argument; statements do not fail.
use zmodbit.Prelude.{
  Option, none, some, Bool, true, false, not, ◌&&◌, List, [], ◌∷◌, ◌++◌, ℕ, zero, suc, ◌+◌, ◌-◌,
  ◌*◌, ◌/◌, ◌%◌, ◌==◌, ltb, leb, Text, text_eq, bytes, is_filled, push, last, find, Result, ok, err,
  if◌then◌else◌,
}
use zmodbit.Domain.Events.{Actor, AggregateType, session, system}
use zmodbit.Domain.Commands.{Command, create_task, queue_task}
use zmodbit.EventStore.Envelope.{EventEnvelope, External, Fresh}
use zmodbit.EventStore.Tables.{Store}
use zmodbit.EventStore.Reads.{Outcome, applied, replayed, rejected, rejected_before}
use zmodbit.EventStore.Commands.{execute}
use zmodbit.Automation.Rows.{Automation, record_fire}
use zmodbit.Automation.Cron.{minute_key, CronSpec, parse_cron, matches_minute}

pub data TickError : Type 0 where
  no_session no_task : TickError
  unparsable_cron : TickError

pub record TickOutcome : Type 0 where
  pub fired : List (Text × Text)
  pub errors : List (Text × TickError)

-- Identifiers and times for the two commands of a fire.
pub record Identifiers : Type 0 where
  pub create_id : Text
  pub create_fresh : Fresh
  pub queue_id : Text
  pub queue_fresh : Fresh

abbrev pub is_session : AggregateType → Bool
is_session session = true
is_session _ = false

abbrev pub event_ids_of : Outcome → List Text
event_ids_of (applied ids) = ids
event_ids_of (replayed ids) = ids
event_ids_of (rejected r) = []
event_ids_of rejected_before = []

abbrev pub aggregate_in : List Text → List EventEnvelope → Option Text
aggregate_in [] events = none
aggregate_in (id ∷ ids) events = elim (find (λ e. text_eq e.event_id id) events) [
  | none ↦ none
  | some e ↦ some e.aggregate_id
]

-- Rowids are places in the log, from 1; those of the type that are greater than `consumed`.
unfoldable pub matching_rowids : Text → ℕ → ℕ → List EventEnvelope → List ℕ
matching_rowids pattern consumed rowid [] = []
matching_rowids pattern consumed rowid (e ∷ es) =
    let rest = matching_rowids pattern consumed (suc rowid) es in
    if text_eq (bytes e.event_type) pattern && ltb consumed rowid then rowid ∷ rest else rest

abbrev pub decimal_from : ℕ → ℕ → Text → Text
decimal_from zero n t = t
decimal_from (suc fuel) n t =
    let more = decimal_from fuel (n / 10) ((48 + n % 10) ∷ t) in
    if ltb n 10 then (48 + n) ∷ t else more

-- `to_string` of a rowid; a number has fewer digits than the fuel.
abbrev pub decimal : ℕ → Text
decimal n = decimal_from (suc n) n []

abbrev pub digits_of : ℕ → Text → Option ℕ
digits_of n [] = some n
digits_of n (c ∷ t) =
    let rest = digits_of (n * 10 + (c - 48)) t in if leb 48 c && leb c 57 then rest else none

abbrev pub below_i64 : Option ℕ → ℕ
below_i64 none = 0
below_i64 (some n) = if ltb n 9223372036854775808 then n else 0

-- `parse::<i64>().unwrap_or(-1)` for rowids, which are positive: 0 where the source has a negative number.
abbrev pub consumed_of : Text → ℕ
consumed_of [] = 0
consumed_of (c ∷ t) = if c == 43 then below_i64 (digits_of 0 t) else below_i64 (digits_of 0 (c ∷ t))

pub record Ticking : Type 0 where
  pub rows : List Automation
  pub store : Store
  pub outcome : TickOutcome

abbrev pub failed : Text → TickError → TickOutcome → TickOutcome
failed id e o = record o { errors = push o.errors (id, e) }

-- The task is made, and then the fire recorded under its boundary.
abbrev pub fire_as : Text → Automation → Result TickError Text × Store → Ticking → Ticking
fire_as boundary a (ok task_id, s) t = record {
  rows = record_fire a.automation_id boundary t.rows;
  store = s;
  outcome = record t.outcome { fired = push t.outcome.fired (a.automation_id, task_id) };
}
fire_as boundary a (err e, s) t = record t {
  store = s;
  outcome = failed a.automation_id e t.outcome;
}

module _ (x : External) where
  abbrev pub queued_in : Option Text → Identifiers → Actor → Store → Result TickError Text × Store
  queued_in none ids actor s = (err no_task, s)
  queued_in (some task_id) ids actor s =
      let c : Command = record {
        command_id = ids.queue_id;
        actor = actor;
        payload = queue_task task_id;
      } in
      (ok task_id, (execute x ids.queue_fresh c s).1)

  unfoldable pub spawn_in :
      Option EventEnvelope → Identifiers → Automation → Store → Result TickError Text × Store
  unfolding execute
  spawn_in none ids a s = (err no_session, s)
  spawn_in (some e) ids a s =
      let actor : Actor = record { actor_type = system; actor_id = a.automation_id } in
      let c : Command = record {
        command_id = ids.create_id;
        actor = actor;
        payload =
            create_task e.aggregate_id (bytes "automation: " ++ a.name) a.objective none none none;
      } in
      let (outcome, s') = execute x ids.create_fresh c s in
      queued_in (aggregate_in (event_ids_of outcome) s'.events) ids actor s'

  unfoldable pub spawn_task : Identifiers → Automation → Store → Result TickError Text × Store
  unfolding spawn_in
  spawn_task ids a s = spawn_in (find (λ e. is_session e.aggregate_type) s.events) ids a s

  module _ (uuids : Text → Identifiers) (now_epoch_secs : ℕ) where
    unfoldable pub tick_due : Bool → Automation → Ticking → Ticking
    unfolding spawn_task
    tick_due false a t = t
    tick_due true a t =
        fire_as (minute_key now_epoch_secs) a (spawn_task (uuids a.automation_id) a t.store) t

    unfoldable pub tick_cron : Option CronSpec → Automation → Ticking → Ticking
    unfolding tick_due
    tick_cron none a t = record t { outcome = failed a.automation_id unparsable_cron t.outcome }
    tick_cron (some spec) a t =
        tick_due
          (not (text_eq a.last_fire_key (minute_key now_epoch_secs))
            && matches_minute spec (now_epoch_secs - now_epoch_secs % 60))
          a t

    unfoldable pub tick_event : Option ℕ → Automation → Ticking → Ticking
    unfolding spawn_task
    tick_event none a t = t
    tick_event (some newest) a t =
        fire_as (decimal newest) a (spawn_task (uuids a.automation_id) a t.store) t

    unfoldable pub tick_one : Automation → Ticking → Ticking
    unfolding tick_cron tick_event
    tick_one a t =
        if not a.enabled
        then t
        else if is_filled a.event_pattern
        then tick_event
            (last (matching_rowids a.event_pattern (consumed_of a.last_fire_key) 1 t.store.events))
            a t
        else tick_cron (parse_cron a.cron) a t

    unfoldable pub tick_loop : List Automation → Ticking → Ticking
    unfolding tick_one
    tick_loop [] t = t
    tick_loop (a ∷ as') t = tick_loop as' (tick_one a t)

    -- `tick`, over the rows as they are at its start.
    unfoldable pub tick : List Automation → Store → Ticking
    unfolding tick_loop
    tick rows s =
        tick_loop rows
          (record { rows = rows; store = s; outcome = record { fired = []; errors = [] } })
