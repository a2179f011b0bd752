-- ===== src/DateTime/Convert.antt =====
-- `datetime_v_seconds_to_datetime` gives the date and time that lies so many seconds after the start
-- of 1900.
use sapphire_os.Prelude.{
  if◌then◌else◌, Bool-cases, sub16, sub32, mul32, Returns-bind, Returns, returns, ℕ, ◌+◌, ◌-◌, ◌*◌,
  ◌/◌, ◌%◌, ◌^◌, ◌≤◌, ◌<◌, ◌≡◌, refl, inl, inr, arith,
}
use sapphire_os.DateTime.{
  DateTime, seconds_per_day, is_leap_year, seconds_to_datetime, set_time, find_date,
}
use sapphire_os.DateTime.Calendar.{
  has_leap_day, is_leap_year-has_leap_day, year_length, year_start, month_length, months_span,
  seconds_of, IsValid,
}
use sapphire_os.DateTime.Loops.{year_loop-YearOf, month_loop-MonthOf, year_length_bounds}

pub year_length-span : (y : ℕ) → months_span y 12 1 ≡ year_length y
unfolding months_span month_length year_length
year_length-span y = elim (Bool-cases (has_leap_day y)) [ inl l ↦ rw l refl | inr c ↦ rw c refl ]

-- the hours, minutes and seconds of a time of the day
set_time-time :
    (left year month day : ℕ)
    → left < seconds_per_day
    → let d = set_time left year month day in
      (d.seconds < 60)
      × (d.minutes < 60)
      × (d.hours < 24)
      × (d.hours * 3600 + d.minutes * 60 + d.seconds ≡ left)
unfolding set_time
set_time-time left year month day l = (omega arith, omega arith, omega arith, omega arith)

set_time-date :
    (left year month day : ℕ)
    → let d = set_time left year month day in (d.year ≡ year) × (d.month ≡ month) × (d.day ≡ day)
unfolding set_time
set_time-date left year month day = (refl, refl, refl)

-- the date made of what the two loops find
abbrev pub Converts : ℕ → DateTime → Type 0
Converts seconds d = IsValid d × (seconds_of d ≡ seconds)

set_time-Converts :
    (seconds left month day n : ℕ)
    → left < seconds_per_day
    → 1 ≤ month
    → month ≤ 12
    → 1 ≤ day
    → day ≤ month_length (1900 + n) month
    → (year_start n + months_span (1900 + n) (month - 1) 1 + (day - 1)) * seconds_per_day + left
      ≡ seconds
    → Converts seconds (set_time left (1900 + n) month day)
unfolding seconds_of set_time
set_time-Converts seconds left month day n l a b c d e =
    let t = set_time-time left (1900 + n) month day l in
    let y : 1900 + n - 1900 ≡ n = omega arith in
    (
      record {
        seconds = t.0;
        minutes = t.1;
        hours = t.2;
        day_first = c;
        day_last = d;
        month_first = a;
        month_last = b;
        year = omega arith;
      },
      rw y (omega (arith, t, e)),
    )

find_date-Converts :
    (seconds n : ℕ) (old : DateTime)
    → seconds < 2 ^ 32
    → n < 137
    → year_start n ≤ seconds / seconds_per_day
    → seconds / seconds_per_day < year_start n + year_length (1900 + n)
    → Returns (Converts seconds) (
        find_date seconds
          (seconds / seconds_per_day)
          (year_start n + year_length (1900 + n))
          (1900 + n)
          old)
unfolding find_date year_length
find_date-Converts seconds n old l small low high =
    let days = seconds / seconds_per_day in
    let start = year_start n in
    let temp : (if is_leap_year (1900 + n)
          then sub16 (sub16 (year_start n + year_length (1900 + n)) 365) 1
          else sub16 (year_start n + year_length (1900 + n)) 365)
        ≡ year_start n =
      rw (is_leap_year-has_leap_day (1900 + n)) (ground arith) in
    let doy : sub16 days start ≡ days - start = omega arith in
    let left : sub32 seconds (mul32 start seconds_per_day) ≡ seconds - start * seconds_per_day =
      omega arith in
    rw temp (
      rw (doy, left)
        (Returns-bind
          (month_loop-MonthOf (1900 + n) 12 1 (days - start) (seconds - start * seconds_per_day) _
            (omega arith) (omega arith) (rw year_length-span (omega arith)) (omega arith)
            (omega arith) (omega (arith, year_length_bounds (1900 + n))))
          λ out (j, lt, at, first, last, span, rest).
            let month : out.0 - 1 ≡ j = omega arith in
            returns (
              set_time-Converts seconds out.2 out.0 out.1 n (omega arith) (omega arith)
                (omega arith) first last (rw month (omega arith)))))

-- For every 32-bit count of seconds the conversion ends, without an access outside the table of
-- months, in a valid date and time, and that date and time is that many seconds after the start of
-- 1900.
pub seconds_to_datetime-Converts :
    (seconds : ℕ) (old : DateTime)
    → seconds < 2 ^ 32
    → Returns (Converts seconds) (seconds_to_datetime seconds old)
unfolding seconds_to_datetime year_start
seconds_to_datetime-Converts seconds old l =
    let e : seconds / seconds_per_day % 2 ^ 16 ≡ seconds / seconds_per_day = omega arith in
    rw e (
      Returns-bind
        (year_loop-YearOf 199 (seconds / seconds_per_day) 0 (omega arith) (omega arith)
          (omega arith))
        λ out (n, y, next, low, high, small).
          rw (y, next) (find_date-Converts seconds n old l small low high))
