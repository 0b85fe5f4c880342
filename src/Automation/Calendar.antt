-- ===== src/Automation/Calendar.antt =====
-- crates/core-runtime/src/automation.rs: civil_from_epoch, on days that are not negative.
use zmodbit.Prelude.{ℕ, ◌+◌, ◌-◌, ◌*◌, ◌/◌, ◌%◌, ltb, leb, if◌then◌else◌}

pub record Date : Type 0 where
  pub year : ℕ
  pub month : ℕ
  pub day : ℕ

abbrev pub year_of_era : ℕ → ℕ
year_of_era doe = (doe - doe / 1460 + doe / 36524 - doe / 146096) / 365

-- The days of an era before March 1 of a year of it.
abbrev pub days_before : ℕ → ℕ
days_before yoe = 365 * yoe + yoe / 4 - yoe / 100

-- The date of a day of a year that starts on March 1.
unfoldable pub date_of : ℕ → ℕ → Date
date_of yoe doy =
    let mp = (5 * doy + 2) / 153 in
    let m = if ltb mp 10 then mp + 3 else mp - 9 in
    record {
      year = if leb m 2 then yoe + 1 else yoe;
      month = m;
      day = doy - (153 * mp + 2) / 5 + 1;
    }

-- The date of a day of an era of 400 years, which starts on March 1.
unfoldable pub date_in_era : ℕ → Date
unfolding date_of
date_in_era doe = let yoe = year_of_era doe in date_of yoe (doe - days_before yoe)

abbrev pub in_era : ℕ → Date → Date
in_era era d = record d { year = d.year + era * 400 }

-- The date of a number of days since 1970-01-01, with the year as it is before it is cast to u32.
unfoldable pub civil_from_days : ℕ → Date
unfolding date_in_era
civil_from_days days = let z = days + 719468 in in_era (z / 146097) (date_in_era (z % 146097))

pub record Civil : Type 0 where
  pub date : Date
  pub hour : ℕ
  pub minute : ℕ
  pub weekday : ℕ

abbrev pub u32 : ℕ
u32 = 4294967296

unfoldable pub civil_from_epoch : ℕ → Civil
civil_from_epoch epoch_secs =
    let days = epoch_secs / 86400 in
    let secs = epoch_secs % 86400 in
    let d = civil_from_days days in
    record {
      date = record d { year = d.year % u32 };
      hour = secs / 3600;
      minute = secs % 3600 / 60;
      weekday = (days + 4) % 7;
    }
