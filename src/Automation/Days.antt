-- ===== src/Automation/Days.antt =====
-- crates/core-runtime/src/automation.rs: civil_from_epoch against the rules of the calendar.
use zmodbit.Prelude.{
  ◌≡◌, refl, sym, ap, ◌∙◌, ◌⊎◌, inl, inr, Bool-cases, ℕ, ◌+◌, ◌*◌, ◌/◌, ◌%◌, ◌<◌, ◌≤◌, ltb,
  if◌then◌else◌, arith,
}
use zmodbit.Automation.Calendar.{
  Date, days_before, date_of, date_in_era, in_era, civil_from_days, civil_from_epoch, u32,
}
use zmodbit.Automation.Years.{is_leap, next_day, leap_length, placed, date_at, day_step, year_end}

-- The next day in an era; its last day is followed by the first of the next.
era_step :
    (doe : ℕ)
    → doe < 146097
    → ((doe + 1 < 146097) × (next_day (date_in_era doe) ≡ date_in_era (doe + 1)))
      ⊎ ((doe ≡ 146096) × (next_day (date_in_era doe) ≡ date_of 400 0))
era_step doe h =
    let (y, doy, yb, e, db, is) = placed doe h in
    elim (Bool-cases (ltb (doy + 1) (365 + (if is_leap (y + 1) then 1 else 0)))) [
      | inl q ↦
          let more : doy + 1 < 365 + (if is_leap (y + 1) then 1 else 0) = ground arith in
          let f : doe + 1 ≡ days_before y + (doy + 1) = omega arith in
          inl (
            ground (arith, yb, e, more),
            ap next_day is
                ∙ day_step y doy more
                ∙ sym (ap date_in_era f ∙ date_at y (doy + 1) yb more),
          )
      | inr q ↦
          let end : doy + 1 ≡ 365 + (if is_leap (y + 1) then 1 else 0) = ground (arith, db) in
          let l : days_before (y + 1) + y / 399
              ≡ days_before y + 365 + (if is_leap (y + 1) then 1 else 0) =
            leap_length y yb in
          let next : doe + 1 ≡ days_before (y + 1) + y / 399 = omega (arith, e, end, l) in
          elim (Bool-cases (ltb y 399)) [
            | inl r ↦
                let small : y < 399 = ground arith in
                let f : doe + 1 ≡ days_before (y + 1) + 0 = omega (arith, next, small) in
                let some_days : 0 < 365 + (if is_leap (y + 1 + 1) then 1 else 0) = omega arith in
                inl (
                  omega (arith, f, small),
                  ap next_day is
                      ∙ year_end y doy end
                      ∙ sym (ap date_in_era f ∙ date_at (y + 1) 0 (omega (arith, small)) some_days),
                )
            | inr r ↦
                let last : y ≡ 399 = ground (arith, yb) in
                inr (
                  omega (arith, next, last),
                  ap next_day is ∙ year_end y doy end ∙ ap (λ x. date_of (x + 1) 0) last,
                )
          ]
    ]

leap_in_era : (y era : ℕ) → is_leap (y + era * 400) ≡ is_leap y
leap_in_era y era =
    let a : (y + era * 400) % 4 ≡ y % 4 = omega arith in
    let b : (y + era * 400) % 100 ≡ y % 100 = omega arith in
    let c : (y + era * 400) % 400 ≡ y % 400 = omega arith in rw (a, b, c) refl

next_day-in_era : (era : ℕ) (d : Date) → next_day (in_era era d) ≡ in_era era (next_day d)
next_day-in_era era d = rw (leap_in_era d.year era) (ground arith)

era_end : (era : ℕ) → in_era (era + 1) (date_in_era 0) ≡ in_era era (date_of 400 0)
unfolding date_in_era date_of
era_end era = ground arith

-- Day 0 is January 1, 1970, and the date of every next day is the next day of the Gregorian calendar.
pub civil_from_days-next :
    (civil_from_days 0 ≡ record { year = 1970; month = 1; day = 1 })
    × ((days : ℕ) → civil_from_days (days + 1) ≡ next_day (civil_from_days days))
unfolding civil_from_days
civil_from_days-next = (
  refl,
  λ days.
      let z = days + 719468 in
      elim (era_step (z % 146097) (omega arith)) [
        | inl (inside, e) ↦
            let a : (days + 1 + 719468) / 146097 ≡ z / 146097 = omega (arith, inside) in
            let b : (days + 1 + 719468) % 146097 ≡ z % 146097 + 1 = omega (arith, inside) in
            rw (a, b)
              (ap (in_era (z / 146097)) (sym e)
                ∙ sym (next_day-in_era (z / 146097) (date_in_era (z % 146097))))
        | inr (last, e) ↦
            let a : (days + 1 + 719468) / 146097 ≡ z / 146097 + 1 = omega (arith, last) in
            let b : (days + 1 + 719468) % 146097 ≡ 0 = omega (arith, last) in
            rw (a, b)
              (era_end (z / 146097)
                ∙ ap (in_era (z / 146097)) (sym e)
                ∙ sym (next_day-in_era (z / 146097) (date_in_era (z % 146097))))
      ],
)

abbrev cast_year : Date → Date
cast_year d = record d { year = d.year % u32 }

next_day-cast_year :
    (d : Date) → (next_day d).year < u32 → cast_year (next_day d) ≡ next_day (cast_year d)
next_day-cast_year d h =
    let grows : d.year ≤ (next_day d).year = ground arith in
    let same : d.year % u32 ≡ d.year = omega (arith, h, grows) in
    let same' : (next_day d).year % u32 ≡ (next_day d).year = omega (arith, h) in
    ap (λ y. record (next_day d) { year = y }) same'
    ∙ sym (ap (λ y. next_day (record d { year = y })) same)

-- A day later the clock shows the same time, the next weekday and the next day of the calendar, as long as the year of
-- that day is below 2^32.
pub civil_from_epoch-next :
    (epoch_secs : ℕ)
    → (next_day (civil_from_days (epoch_secs / 86400))).year < u32
    → civil_from_epoch (epoch_secs + 86400) ≡ record (civil_from_epoch epoch_secs) {
      date = next_day (civil_from_epoch epoch_secs).date;
      weekday = ((civil_from_epoch epoch_secs).weekday + 1) % 7;
    }
unfolding civil_from_epoch
civil_from_epoch-next epoch_secs h =
    let q = epoch_secs / 86400 in
    let a : (epoch_secs + 86400) / 86400 ≡ q + 1 = omega arith in
    let b : (epoch_secs + 86400) % 86400 ≡ epoch_secs % 86400 = omega arith in
    let w : (q + 1 + 4) % 7 ≡ ((q + 4) % 7 + 1) % 7 = omega arith in
    rw (a, b, civil_from_days-next.1 q, w, next_day-cast_year (civil_from_days q) h) refl
