-- ===== src/Automation/Rounds.antt =====
-- crates/core-runtime/src/automation.rs: what a round of a tick does.
use zmodbit.Prelude.{
  ◌≡◌, refl, inl, inr, ◌⊎◌, true, false, not, Bool, ◌&&◌, Option, none, some, ℕ, ◌-◌, ◌%◌, Text,
  text_eq, is_filled, push, last, Result, ok, err, if◌then◌else◌, arith,
}
use zmodbit.EventStore.Envelope.{External}
use zmodbit.EventStore.Tables.{Store}
use zmodbit.Automation.Rows.{Automation, record_fire}
use zmodbit.Automation.Cron.{CronSpec, minute_key, parse_cron, matches_minute}
use zmodbit.Automation.Engine.{
  TickError, Identifiers, Ticking, fire_as, spawn_task, tick_due, tick_cron, tick_event, tick_one,
  matching_rowids, consumed_of, decimal,
}

module _ (x : External) (uuids : Text → Identifiers) (now : ℕ) where
  -- A round fires nothing, or its own automation, which it records; one with a cron spec only in a new minute.
  abbrev pub Rounds : Automation → Ticking → Ticking → Type 0
  Rounds a t t' =
      ((t'.rows ≡ t.rows) × (t'.outcome.fired ≡ t.outcome.fired))
      ⊎ ((boundary : Text) × (task : Text) × (t'.rows ≡ record_fire a.automation_id boundary t.rows)
          × (t'.outcome.fired ≡ push t.outcome.fired (a.automation_id, task))
          × (is_filled a.event_pattern ≡ false
              → (boundary ≡ minute_key now) × (text_eq a.last_fire_key (minute_key now) ≡ false)))

  fire_as-Rounds :
      (boundary : Text) (a : Automation) (r : Result TickError Text × Store) (t : Ticking)
      → (is_filled a.event_pattern ≡ false
          → (boundary ≡ minute_key now) × (text_eq a.last_fire_key (minute_key now) ≡ false))
      → Rounds a t (fire_as boundary a r t)
  fire_as-Rounds boundary a (ok task, s) t h = inr (boundary, task, refl, refl, h)
  fire_as-Rounds boundary a (err e, s) t h = inl (refl, refl)

  tick_due-Rounds :
      (due : Bool) (a : Automation) (t : Ticking)
      → (due ≡ true → text_eq a.last_fire_key (minute_key now) ≡ false)
      → Rounds a t (tick_due x uuids now due a t)
  unfolding tick_due
  tick_due-Rounds false a t h = inl (refl, refl)
  tick_due-Rounds true a t h =
      fire_as-Rounds (minute_key now) a (spawn_task x (uuids a.automation_id) a t.store) t
        (λ c. (refl, h refl))

  tick_cron-Rounds :
      (spec : Option CronSpec) (a : Automation) (t : Ticking)
      → Rounds a t (tick_cron x uuids now spec a t)
  unfolding tick_cron
  tick_cron-Rounds none a t = inl (refl, refl)
  tick_cron-Rounds (some spec) a t =
      tick_due-Rounds
        (not (text_eq a.last_fire_key (minute_key now)) && matches_minute spec (now - now % 60)) a t
        (λ h. ground arith)

  tick_event-Rounds :
      (newest : Option ℕ) (a : Automation) (t : Ticking)
      → is_filled a.event_pattern ≡ true
      → Rounds a t (tick_event x uuids now newest a t)
  unfolding tick_event
  tick_event-Rounds none a t e = inl (refl, refl)
  tick_event-Rounds (some newest) a t e =
      fire_as-Rounds (decimal newest) a (spawn_task x (uuids a.automation_id) a t.store) t (λ c. cc)

  triggered-Rounds :
      (by_event : Bool) (a : Automation) (t : Ticking)
      → is_filled a.event_pattern ≡ by_event
      → Rounds a t (
          if by_event
          then tick_event x uuids now
              (last
                (matching_rowids a.event_pattern (consumed_of a.last_fire_key) 1 t.store.events))
              a
              t
          else tick_cron x uuids now (parse_cron a.cron) a t)
  triggered-Rounds true a t e =
      tick_event-Rounds
        (last (matching_rowids a.event_pattern (consumed_of a.last_fire_key) 1 t.store.events)) a t
        e
  triggered-Rounds false a t e = tick_cron-Rounds (parse_cron a.cron) a t

  pub tick_one-Rounds : (a : Automation) (t : Ticking) → Rounds a t (tick_one x uuids now a t)
  unfolding tick_one
  tick_one-Rounds a t =
      elim a.enabled
        as (λ on. Rounds a t (
          if not on
          then t
          else if is_filled a.event_pattern
          then tick_event x uuids now
              (last
                (matching_rowids a.event_pattern (consumed_of a.last_fire_key) 1 t.store.events))
              a t
          else tick_cron x uuids now (parse_cron a.cron) a t)) [
            | false ↦ inl (refl, refl)
            | true ↦ triggered-Rounds (is_filled a.event_pattern) a t refl
          ]
