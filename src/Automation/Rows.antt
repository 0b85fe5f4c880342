-- ===== src/Automation/Rows.antt =====
-- crates/event-store/src/automations.rs: the table of automations, in the order of its rows. Its key is the id; the
-- texts of errors are left out, and the id that `uuid_like` makes is an argument.
use zmodbit.Prelude.{
  Bool, not, ◌&&◌, List, Text, text_eq, is_filled, is_blank, any, map, push, retain, Result, ok,
  err, if◌then◌else◌,
}

pub record Automation : Type 0 where
  pub automation_id : Text
  pub name : Text
  pub cron : Text
  pub event_pattern : Text
  pub objective : Text
  pub enabled : Bool
  pub last_fire_key : Text

pub data RowError : Type 0 where
  no_trigger no_objective duplicate_id does_not_exist : RowError

abbrev pub has_id : Text → Automation → Bool
has_id id a = text_eq a.automation_id id

abbrev pub with_id : Text → Automation → Automation
with_id made a = if is_filled a.automation_id then a else record a { automation_id = made }

abbrev insert_row : Automation → List Automation → Result RowError Automation × List Automation
insert_row a rows =
    if any (has_id a.automation_id) rows then (err duplicate_id, rows) else (ok a, push rows a)

-- `create`.
unfoldable pub create_row :
    Text → Automation → List Automation → Result RowError Automation × List Automation
create_row made a rows =
    if not (is_filled a.cron) && not (is_filled a.event_pattern)
    then (err no_trigger, rows)
    else if is_blank a.objective
    then (err no_objective, rows)
    else insert_row (with_id made a) rows

abbrev pub update_row : Text → (Automation → Automation) → Automation → Automation
update_row id f a = if has_id id a then f a else a

unfoldable pub set_enabled :
    Text → Bool → List Automation → Result RowError (Unit {0}) × List Automation
set_enabled id enabled rows =
    if any (has_id id) rows
    then (ok tt, map (update_row id (λ a. record a { enabled = enabled })) rows)
    else (err does_not_exist, rows)

unfoldable pub delete_row : Text → List Automation → Result RowError (Unit {0}) × List Automation
delete_row id rows =
    if any (has_id id) rows
    then (ok tt, retain (λ a. not (has_id id a)) rows)
    else (err does_not_exist, rows)

unfoldable pub record_fire : Text → Text → List Automation → List Automation
record_fire id boundary rows = map (update_row id (λ a. record a { last_fire_key = boundary })) rows
