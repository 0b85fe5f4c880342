-- ===== src/Automation/Years.antt =====
-- crates/core-runtime/src/automation.rs: the days of a year and of an era, against the rules of the calendar.
use zmodbit.Prelude.{
  ◌≡◌, refl, sym, ap, ◌∙◌, inl, inr, Bool, true, false, not, Bool-cases, ◌&&◌, ◌||◌, ℕ, zero, suc,
  ◌+◌, ◌-◌, ◌/◌, ◌%◌, ◌<◌, ◌≤◌, ltb, ◌==◌, if◌then◌else◌, arith,
}
use zmodbit.Automation.Calendar.{Date, year_of_era, days_before, date_of, date_in_era}

abbrev pub is_leap : ℕ → Bool
is_leap y = (y % 4 == 0) && (not (y % 100 == 0) || (y % 400 == 0))

abbrev pub length_of_month : Bool → ℕ → ℕ
length_of_month leap m =
    if m == 2
    then (if leap then 29 else 28)
    else if m == 4
    then 30
    else if m == 6
    then 30
    else if m == 9
    then 30
    else if m == 11
    then 30
    else 31

abbrev next_in : Bool → Date → Date
next_in leap d =
    if ltb d.day (length_of_month leap d.month)
    then record d { day = d.day + 1 }
    else if ltb d.month 12
    then record { year = d.year; month = d.month + 1; day = 1 }
    else record { year = d.year + 1; month = 1; day = 1 }

-- The next day of the Gregorian calendar.
abbrev pub next_day : Date → Date
next_day d = next_in (is_leap d.year) d

same_date : Date → Date → Bool
same_date a b = (a.year == b.year) && (a.month == b.month) && (a.day == b.day)

-- All numbers of a range pass a test.
below : (ℕ → Bool) → ℕ → Bool
below test zero = true
below test (suc n) = below test n && test n

below-passes : (test : ℕ → Bool) (n k : ℕ) → k < n → below test n ≡ true → test k ≡ true
unfolding below
below-passes test zero k lt h = absurd (omega arith)
below-passes test (suc n) k lt h = ground (arith, below-passes test n k)

same_date-eq : (a b : Date) → same_date a b ≡ true → a ≡ b
unfolding same_date
same_date-eq a b h = ground arith

-- The days of a year from March 1 to the last but one of February, and that to February 29.
steps : Bool → ℕ → Bool
unfolding date_of same_date
steps leap doy = same_date (date_of 0 (doy + 1)) (next_in leap (date_of 0 doy))

year_table : (below (λ doy. steps true doy && steps false doy) 364 && steps true 364) ≡ true
unfolding below steps
year_table = refl

-- A year that is not the first moves along.
abbrev pub later_year : (yoe : ℕ) → Date → Date
later_year yoe d = record d { year = d.year + yoe }

pub date_of-later : (yoe doy : ℕ) → date_of yoe doy ≡ later_year yoe (date_of 0 doy)
unfolding date_of
date_of-later yoe doy = ground arith

next_in-later :
    (leap : Bool) (yoe : ℕ) (d : Date)
    → next_in leap (later_year yoe d) ≡ later_year yoe (next_in leap d)
next_in-later leap yoe d = ground arith

-- The year that the formula gives for a day of an era is the one that holds it.
year_holds :
    (doe : ℕ)
    → doe < 146097
    → let y = year_of_era doe in
      (y < 400) × (days_before y ≤ doe) × (doe < days_before (y + 1) + y / 399)
year_holds doe h = omega arith

same_year :
    (x y y' : ℕ)
    → y < 400
    → days_before y ≤ x
    → x < days_before (y + 1) + y / 399
    → y' < 400
    → days_before y' ≤ x
    → x < days_before (y' + 1) + y' / 399
    → y' ≡ y
same_year x y y' a b c d e f = omega arith

next_year :
    (x y y' : ℕ)
    → y < 400
    → x < days_before (y + 1) + y / 399
    → days_before (y + 1) + y / 399 ≤ x + 1
    → y' < 400
    → days_before y' ≤ x + 1
    → x + 1 < days_before (y' + 1) + y' / 399
    → y' ≡ y + 1
next_year x y y' a c n d e f = omega arith

pub leap_length :
    (y : ℕ)
    → y < 400
    → days_before (y + 1) + y / 399 ≡ days_before y + 365 + (if is_leap (y + 1) then 1 else 0)
leap_length y h = ground arith

-- A day of an era, by its year and the day in the year.
pub placed :
    (doe : ℕ)
    → doe < 146097
    → (y : ℕ) × (doy : ℕ) × (y < 400)
      × (doe ≡ days_before y + doy)
      × (doy < 365 + (if is_leap (y + 1) then 1 else 0))
      × (date_in_era doe ≡ date_of y doy)
unfolding date_in_era
placed doe h =
    let (a, b, c) = year_holds doe h in
    let l = leap_length (year_of_era doe) a in
    (year_of_era doe, doe - days_before (year_of_era doe), a, omega arith, ground (arith, l), refl)

pub date_at :
    (y doy : ℕ)
    → y < 400
    → doy < 365 + (if is_leap (y + 1) then 1 else 0)
    → date_in_era (days_before y + doy) ≡ date_of y doy
unfolding date_in_era
date_at y doy h k =
    let l = leap_length y h in
    let range : days_before y + doy < days_before (y + 1) + y / 399 = ground (arith, l) in
    let inside : days_before y + doy < 146097 = omega (arith, range) in
    let (a, b, c) = year_holds (days_before y + doy) inside in
    let e : year_of_era (days_before y + doy) ≡ y = sym (
      same_year (days_before y + doy) (year_of_era (days_before y + doy)) y a b c h (omega arith)
        range) in
    let f : days_before y + doy - days_before y ≡ doy = omega arith in
    ap (λ x. date_of x (days_before y + doy - days_before x)) e ∙ ap (λ x. date_of y x) f

any_leap : (leap : Bool) (doy : ℕ) → doy < 364 → next_in leap (date_of 0 doy) ≡ date_of 0 (doy + 1)
unfolding steps
any_leap leap doy h =
    let table : below (λ d. steps true d && steps false d) 364 ≡ true =
      ground (arith, year_table) in
    let both = below-passes (λ d. steps true d && steps false d) 364 doy h table in
    sym (
      same_date-eq (date_of 0 (doy + 1)) (next_in leap (date_of 0 doy))
        (elim leap as (λ l. same_date (date_of 0 (doy + 1)) (next_in l (date_of 0 doy)) ≡ true) [
          | true ↦ ground (arith, both)
          | false ↦ ground (arith, both)
        ]))

next_day-date_of :
    (y doy : ℕ) (leap : Bool) (d : Date)
    → is_leap (date_of y doy).year ≡ leap
    → next_in leap (date_of 0 doy) ≡ d
    → next_day (date_of y doy) ≡ later_year y d
next_day-date_of y doy leap d l e =
    ap (λ x. next_in x (date_of y doy)) l
    ∙ ap (next_in leap) (date_of-later y doy)
    ∙ next_in-later leap y (date_of 0 doy)
    ∙ ap (later_year y) e

pub day_step :
    (y doy : ℕ)
    → doy + 1 < 365 + (if is_leap (y + 1) then 1 else 0)
    → next_day (date_of y doy) ≡ date_of y (doy + 1)
unfolding date_of
day_step y doy h = elim (Bool-cases (ltb doy 364)) [
  | inl q ↦
      next_day-date_of y doy (is_leap (date_of y doy).year) (date_of 0 (doy + 1)) refl
        (any_leap (is_leap (date_of y doy).year) doy (ground arith))
      ∙ sym (date_of-later y (doy + 1))
  | inr q ↦
      let last : doy ≡ 364 = ground arith in
      let leap : is_leap (y + 1) ≡ true = ground arith in
      rw (last) (next_day-date_of y 364 true (date_of 0 365) leap refl ∙ sym (date_of-later y 365))
]

pub year_end :
    (y doy : ℕ)
    → doy + 1 ≡ 365 + (if is_leap (y + 1) then 1 else 0)
    → next_day (date_of y doy) ≡ date_of (y + 1) 0
unfolding date_of
year_end y doy h = elim (Bool-cases (is_leap (y + 1))) [
  | inl q ↦
      let last : doy ≡ 365 = ground arith in
      rw (last) (next_day-date_of y 365 true (date_of 1 0) q refl ∙ ground arith)
  | inr q ↦
      let last : doy ≡ 364 = ground arith in
      rw (last) (next_day-date_of y 364 false (date_of 1 0) q refl ∙ ground arith)
]
