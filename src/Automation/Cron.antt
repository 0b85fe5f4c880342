-- ===== src/Automation/Cron.antt =====
-- crates/core-runtime/src/automation.rs: minute_key, Field and CronSpec. Fields are ASCII; the values of a field are
-- listed in order.
use zmodbit.Prelude.{
  Option, none, some, Bool, not, ◌&&◌, ◌||◌, List, [], ◌∷◌, ◌++◌, ℕ, zero, suc, ◌+◌, ◌-◌, ◌*◌, ◌/◌,
  ◌%◌, ◌==◌, ltb, leb, Text, text_eq, bytes, push, length, whitespace_normalized, any,
  if◌then◌else◌,
}
use zmodbit.Automation.Calendar.{Civil, civil_from_epoch, u32}

abbrev pub two_digits : ℕ → Text
two_digits n = (48 + n / 10) ∷ (48 + n % 10) ∷ []

-- `{y:04}` of a year below 10000.
abbrev pub four_digits : ℕ → Text
four_digits n = two_digits (n / 100) ++ two_digits (n % 100)

unfoldable pub minute_key : ℕ → Text
unfolding civil_from_epoch
minute_key now_epoch_secs =
    let c = civil_from_epoch (now_epoch_secs - now_epoch_secs % 60) in
    four_digits c.date.year
    ++ (two_digits c.date.month
        ++ (two_digits c.date.day ++ (two_digits c.hour ++ two_digits c.minute)))

-- `text.split(c)`, with the piece that is being read, and `text.split_once(c)`.
unfoldable pub split_all : ℕ → Text → Text → List Text
split_all c piece [] = piece ∷ []
split_all c piece (d ∷ t) =
    let next = split_all c [] t in
    let longer = split_all c (push piece d) t in if d == c then piece ∷ next else longer

unfoldable pub split_once : ℕ → Text → Option (Text × Text)
split_once c [] = none
split_once c (d ∷ t) =
    let later = split_once c t in
    if d == c then some ([], t) else elim later [ none ↦ none | some (a, b) ↦ some (d ∷ a, b) ]

abbrev digits_from : ℕ → Text → Option ℕ
digits_from n [] = some n
digits_from n (c ∷ t) =
    let rest = digits_from (n * 10 + (c - 48)) t in if leb 48 c && leb c 57 then rest else none

abbrev within_u32 : Option ℕ → Option ℕ
within_u32 none = none
within_u32 (some n) = if ltb n u32 then some n else none

abbrev unsigned : Text → Option ℕ
unsigned [] = none
unsigned (c ∷ t) = within_u32 (digits_from 0 (c ∷ t))

-- `parse::<u32>()`, which takes a leading "+".
unfoldable pub parse_u32 : Text → Option ℕ
parse_u32 [] = none
parse_u32 (c ∷ t) = if c == 43 then unsigned t else unsigned (c ∷ t)

-- `BTreeSet::insert`.
abbrev pub insert_value : ℕ → List ℕ → List ℕ
insert_value v [] = v ∷ []
insert_value v (w ∷ ws) =
    let later = insert_value v ws in
    if v == w then w ∷ ws else if ltb v w then v ∷ w ∷ ws else w ∷ later

-- The loop `while v <= hi`, as many rounds as the fuel allows; the sum is that of a build without overflow checks.
unfoldable pub fill : ℕ → ℕ → ℕ → ℕ → List ℕ → List ℕ
fill zero v hi step values = values
fill (suc fuel) v hi step values =
    let rest = fill fuel ((v + step) % u32) hi step (insert_value v values) in
    if leb v hi then rest else values

-- A part of a field: its bounds and its step.
pub record Part : Type 0 where
  pub lo : ℕ
  pub hi : ℕ
  pub step : ℕ

abbrev pub range_of : Text → ℕ → ℕ → Option (Text × Text) → Option (ℕ × ℕ)
range_of range low high (some (a, b)) = elim (parse_u32 a) [
  | none ↦ none
  | some x ↦ elim (parse_u32 b) [ none ↦ none | some y ↦ some (x, y) ]
]
range_of range low high none = elim (parse_u32 range) [ none ↦ none | some v ↦ some (v, v) ]

abbrev pub bounded : ℕ → ℕ → ℕ → Option (ℕ × ℕ) → Option Part
bounded low high step none = none
bounded low high step (some (lo, hi)) =
    if ltb lo low || ltb high hi || ltb hi lo
    then none
    else some (record { lo = lo; hi = hi; step = step })

abbrev pub stepped : ℕ → ℕ → Text → Option ℕ → Option Part
stepped low high range none = none
stepped low high range (some step) =
    if step == 0
    then none
    else if text_eq range (bytes "*")
    then bounded low high step (some (low, high))
    else bounded low high step (range_of range low high (split_once 45 range))

abbrev pub part_at : ℕ → ℕ → Text → Option (Text × Text) → Option Part
part_at low high part (some (range, step)) = stepped low high range (parse_u32 step)
part_at low high part none = stepped low high part (some 1)

unfoldable pub parse_part : ℕ → ℕ → Text → Option Part
unfolding split_once parse_u32
parse_part low high part = part_at low high part (split_once 47 part)

abbrev pub fill_part : Part → List ℕ → List ℕ
fill_part p values = fill (suc p.hi) p.lo p.hi p.step values

abbrev pub fill_next : Option Part → (List ℕ → Option (List ℕ)) → List ℕ → Option (List ℕ)
fill_next none later values = none
fill_next (some p) later values = later (fill_part p values)

-- The loop over the parts.
unfoldable pub fill_parts : ℕ → ℕ → List Text → List ℕ → Option (List ℕ)
unfolding parse_part fill
fill_parts low high [] values = some values
fill_parts low high (p ∷ ps) values =
    fill_next (parse_part low high p) (λ vs. fill_parts low high ps vs) values

-- `Field::parse`.
unfoldable pub parse_field : Text → ℕ → ℕ → Option (List ℕ)
unfolding split_all fill_parts
parse_field spec low high = fill_parts low high (split_all 44 [] spec) []

-- `Field::matches`.
abbrev pub field_matches : List ℕ → ℕ → Bool
field_matches values v = any (λ w. w == v) values

pub record CronSpec : Type 0 where
  pub minute : List ℕ
  pub hour : List ℕ
  pub day : List ℕ
  pub month : List ℕ
  pub weekday : List ℕ

abbrev field_then : Option (List ℕ) → (List ℕ → Option CronSpec) → Option CronSpec
field_then none k = none
field_then (some vs) k = k vs

abbrev pub spec_of : List Text → Option CronSpec
spec_of (a ∷ b ∷ c ∷ d ∷ e ∷ []) = field_then (parse_field a 0 59) (λ minute.
    field_then (parse_field b 0 23) (λ hour. field_then (parse_field c 1 31) (λ day.
      field_then (parse_field d 1 12) (λ month. field_then (parse_field e 0 7) (λ weekday.
        some (record {
          minute = minute;
          hour = hour;
          day = day;
          month = month;
          weekday = weekday;
        }))))))
spec_of _ = none

-- `CronSpec::parse`; the words are the pieces between the single spaces of the normalized text.
unfoldable pub parse_cron : Text → Option CronSpec
unfolding parse_field whitespace_normalized
parse_cron spec = spec_of (split_all 32 [] (whitespace_normalized spec))

-- The day of the month and that of the week: either, when both are restricted.
abbrev pub day_matches : CronSpec → Civil → Bool
day_matches spec c =
    let day_restricted = not (length spec.day == 31) || not (length spec.month == 12) in
    let day_ok = field_matches spec.day c.date.day in
    let dow_ok =
      field_matches spec.weekday c.weekday || (c.weekday == 0 && field_matches spec.weekday 7) in
    if day_restricted && ltb (length spec.day) 31 && ltb (length spec.weekday) 7
    then day_ok || dow_ok
    else day_ok && dow_ok

unfoldable pub matches_minute : CronSpec → ℕ → Bool
unfolding civil_from_epoch
matches_minute spec epoch_secs =
    let c = civil_from_epoch (epoch_secs - epoch_secs % 60) in
    field_matches spec.month c.date.month
    && day_matches spec c
    && field_matches spec.hour c.hour
    && field_matches spec.minute c.minute
