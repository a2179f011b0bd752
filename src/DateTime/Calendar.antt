-- ===== src/DateTime/Calendar.antt =====
-- The calendar that src/datetime.c follows, as sums of the lengths of years and months.
use sapphire_os.Prelude.{
  ◌==◌, if◌then◌else◌, ℕ, zero, suc, ◌+◌, ◌-◌, ◌*◌, ◌%◌, ◌≤◌, ◌<◌, ◌≡◌, Bool, not, ◌&&◌, ◌||◌,
  arith,
}
use sapphire_os.DateTime.{DateTime, is_leap_year, seconds_per_day}

-- the Gregorian rule: the years that 400 divides, and those that 4 but not 100 divides
unfoldable pub has_leap_day : ℕ → Bool
has_leap_day year = (year % 400 == 0) || ((year % 4 == 0) && not (year % 100 == 0))

-- the rule of the code is the Gregorian one
pub is_leap_year-has_leap_day : (year : ℕ) → is_leap_year year ≡ has_leap_day year
unfolding is_leap_year has_leap_day
is_leap_year-has_leap_day year = ground arith

-- the days of a year
unfoldable pub year_length : ℕ → ℕ
year_length year = if has_leap_day year then 366 else 365

-- the days of `n` years from 1900 on
unfoldable pub year_start : ℕ → ℕ
year_start zero = 0
year_start (suc n) = year_start n + year_length (1900 + n)

-- the days of a month
unfoldable pub month_length : ℕ → ℕ → ℕ
month_length year month =
    if month == 2
    then (if has_leap_day year then 29 else 28)
    else if (month == 4) || (month == 6) || (month == 9) || (month == 11)
    then 30
    else 31

-- the days of `n` months from `month` on
unfoldable pub months_span : ℕ → ℕ → ℕ → ℕ
months_span year zero month = 0
months_span year (suc n) month = month_length year month + months_span year n (month + 1)

-- the seconds from the start of 1900 to a date and time
unfoldable pub seconds_of : DateTime → ℕ
seconds_of d =
    (year_start (d.year - 1900) + months_span d.year (d.month - 1) 1 + (d.day - 1))
      * seconds_per_day
    + d.hours * 3600
    + d.minutes * 60
    + d.seconds

-- a date of the calendar and a time of the day
pub record IsValid (d : DateTime) : Type 0 where
  pub seconds : d.seconds < 60
  pub minutes : d.minutes < 60
  pub hours : d.hours < 24
  pub day_first : 1 ≤ d.day
  pub day_last : d.day ≤ month_length d.year d.month
  pub month_first : 1 ≤ d.month
  pub month_last : d.month ≤ 12
  pub year : 1900 ≤ d.year
