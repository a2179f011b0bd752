-- ===== src/DateTime.antt =====
-- src/datetime.c: calendar dates, counted in seconds from the start of 1900.
pub mod Calendar
pub mod Loops
pub mod Convert
pub mod Increment
mod Tests
use sapphire_os.Prelude.{
  ltb, leb, ◌==◌, if◌then◌else◌, ltb→lt, lt→ltb, le→not_ltb, eq→==, ==→eq, Bool-cases, Option-cases,
  update, length, get_elem?, length-append, is_neg, inc, dec, minus_one, ℤ, add8, add16, sub16,
  add32, sub32, mul32, ◌>>=◌, ◌>>◌, assert, within, >>=-eq-ok, Returns-bind, Returns-mono,
  Returns-ok, Run, Returns, pos, negsuc, ok, assert_failed, out_of_bounds, out_of_fuel, returns, ℕ,
  zero, suc, ◌+◌, ◌-◌, ◌*◌, ◌/◌, ◌%◌, ◌^◌, ◌≤◌, ◌<◌, ◌≡◌, refl, sym, ap, ap₂, ◌∙◌, ◌≢◌, ◌↔◌, ◌⊎◌,
  inl, inr, Bool, true, false, not, ◌&&◌, ◌||◌, Option, none, some, List, [], ◌∷◌, ◌++◌, arith,
}

pub record DateTime : Type 0 where
  pub seconds : ℕ
  pub minutes : ℕ
  pub hours : ℕ
  pub day : ℕ
  pub month : ℕ
  pub year : ℕ

abbrev pub seconds_per_minute : ℕ
seconds_per_minute = 60

abbrev pub minutes_per_hour : ℕ
minutes_per_hour = 60

abbrev pub hours_per_day : ℕ
hours_per_day = 24

abbrev pub days_per_year : ℕ
days_per_year = 365

abbrev pub months_per_year : ℕ
months_per_year = 12

abbrev pub seconds_per_day : ℕ
seconds_per_day = 86400

abbrev pub february : ℕ
february = 2

abbrev pub february_leap_year_days : ℕ
february_leap_year_days = 29

unfoldable pub days_per_month_table : List ℕ
days_per_month_table = 31 ∷ 28 ∷ 31 ∷ 30 ∷ 31 ∷ 30 ∷ 31 ∷ 31 ∷ 30 ∷ 31 ∷ 30 ∷ 31 ∷ []

-- the table's entry for a month
unfoldable pub table_days : ℕ → Run ℕ
unfolding days_per_month_table
table_days month =
    if month == 0 then out_of_bounds else within (get_elem? days_per_month_table (month - 1))

-- `datetime_b_is_leap_year`
unfoldable pub is_leap_year : ℕ → Bool
is_leap_year year =
    if year % 4 == 0
    then (if year % 100 == 0 then (if year % 400 == 0 then true else false) else true)
    else false

-- `datetime_v_get_epoch`
unfoldable pub epoch : DateTime
epoch = record { seconds = 0; minutes = 0; hours = 0; day = 1; month = 1; year = 1900 }

-- the loop over the years of `datetime_v_seconds_to_datetime`; the result is `temp_days` and the year
unfoldable pub year_loop : ℕ → ℕ → ℕ → ℕ → Run (ℕ × ℕ)
year_loop zero days temp_days year = out_of_fuel
year_loop (suc k) days temp_days year = elim (leb temp_days days) [
  | true ↦
      let year' = add16 year 1 in
      let temp' = add16 temp_days days_per_year in
      year_loop k days (if is_leap_year year' then add16 temp' 1 else temp') year'
  | false ↦ ok (temp_days, year)
]

-- the days of a month in the loop over the months
unfoldable pub month_days : ℕ → ℕ → Run ℕ
month_days year month = do
  days ← table_days month
  ok (if (month == february) && is_leap_year year then february_leap_year_days else days)

-- the loop over the months, `n` of which are left from `month` on; the result is the month, the day
-- and the seconds left. Where no month is found, month and day keep their values.
unfoldable pub month_loop : ℕ → ℕ → ℕ → ℕ → ℕ → ℕ × ℕ → Run (ℕ × ℕ × ℕ)
month_loop zero year month day_of_year seconds (old_month, old_day) =
    ok (old_month, old_day, seconds)
month_loop (suc n) year month day_of_year seconds old = month_days year month >>= λ days.
    elim (ltb day_of_year days) [
      | true ↦ ok (month, add8 day_of_year 1, sub32 seconds (mul32 day_of_year seconds_per_day))
      | false ↦
          month_loop n year (month + 1) (sub16 day_of_year days)
            (sub32 seconds (mul32 days seconds_per_day)) old
    ]

-- `datetime_v_seconds_to_datetime`, the hours, minutes and seconds of the day
unfoldable pub set_time : ℕ → ℕ → ℕ → ℕ → DateTime
set_time seconds year month day =
    let hours = seconds / 3600 % 2 ^ 8 in
    let seconds' = sub32 seconds (hours * 3600) in
    let minutes = seconds' / 60 % 2 ^ 8 in
    record {
      seconds = sub32 seconds' (minutes * 60) % 2 ^ 8;
      minutes = minutes;
      hours = hours;
      day = day;
      month = month;
      year = year;
    }

-- `datetime_v_seconds_to_datetime` behind the loop over the years
unfoldable pub find_date : ℕ → ℕ → ℕ → ℕ → DateTime → Run DateTime
find_date seconds days next year old = do
  let last = sub16 next days_per_year
  let temp_days = if is_leap_year year then sub16 last 1 else last
  let left = sub32 seconds (mul32 temp_days seconds_per_day)
  (month, day, rest) ←
      month_loop months_per_year year 1 (sub16 days temp_days) left (old.month, old.day)
  ok (set_time rest year month day)

-- the rounds given to the loop over the years; 32 bits of seconds hold 136 years and a part
abbrev pub year_rounds : ℕ
year_rounds = 200

-- `datetime_v_seconds_to_datetime`; the argument `old` is what the structure held
unfoldable pub seconds_to_datetime : ℕ → DateTime → Run DateTime
seconds_to_datetime seconds old = do
  let days = seconds / seconds_per_day % 2 ^ 16
  (next, year) ← year_loop year_rounds days 0 (1900 - 1)
  find_date seconds days next year old

-- `datetime_v_increment_seconds` from the change of the day on
unfoldable pub increment_day : DateTime → Run DateTime
increment_day d = do
  days ←
      (if not ((d.month == february) && is_leap_year d.year)
        then table_days d.month
        else ok february_leap_year_days)
  ok (
      if ltb days d.day
      then (if ltb months_per_year (add8 d.month 1)
          then record d { day = 1; month = 1; year = add16 d.year 1 }
          else record d { day = 1; month = add8 d.month 1 })
      else d)

-- `datetime_v_increment_seconds`
unfoldable pub increment_seconds : DateTime → Run DateTime
increment_seconds d =
    let second = add8 d.seconds 1 in
    let minute = add8 d.minutes 1 in
    let hour = add8 d.hours 1 in
    let next_day =
      increment_day (record d { seconds = 0; minutes = 0; hours = 0; day = add8 d.day 1 }) in
    if ltb second seconds_per_minute
    then ok (record d { seconds = second })
    else if ltb minute minutes_per_hour
    then ok (record d { seconds = 0; minutes = minute })
    else if ltb hour hours_per_day
    then ok (record d { seconds = 0; minutes = 0; hours = hour })
    else next_day
