-- ===== src/DateTime/Tests.antt =====
-- src/datetime.c at the leap day of 2012, and the theorems about it there.
use sapphire_os.Prelude.{Returns, ok, ◌+◌, ◌≡◌, refl, arith}
use sapphire_os.DateTime.{
  DateTime, epoch, table_days, month_days, is_leap_year, year_loop, month_loop, set_time, find_date,
  seconds_to_datetime, increment_day, increment_seconds,
}
use sapphire_os.DateTime.Calendar.{has_leap_day, month_length, seconds_of, IsValid}
use sapphire_os.DateTime.Convert.{Converts, seconds_to_datetime-Converts}
use sapphire_os.DateTime.Increment.{increment_seconds-Converts}

-- 23:59:59 on 28 February 2012
abbrev late : DateTime
late = record { seconds = 59; minutes = 59; hours = 23; day = 28; month = 2; year = 2012 }

late_converts : seconds_to_datetime 3539462399 epoch ≡ ok late
unfolding seconds_to_datetime find_date year_loop month_loop month_days table_days is_leap_year
    set_time epoch
late_converts = refl

leap_day :
    increment_seconds late ≡ ok (record late { seconds = 0; minutes = 0; hours = 0; day = 29 })
unfolding increment_seconds increment_day is_leap_year
leap_day = refl

late-IsValid : IsValid late
unfolding month_length has_leap_day
late-IsValid = omega arith

seconds_to_datetime-Converts_example :
    Returns (Converts 3539462399) (seconds_to_datetime 3539462399 epoch)
seconds_to_datetime-Converts_example = seconds_to_datetime-Converts 3539462399 epoch (omega arith)

increment_seconds-Converts_example :
    Returns (λ d. IsValid d × (seconds_of d ≡ seconds_of late + 1)) (increment_seconds late)
increment_seconds-Converts_example = increment_seconds-Converts late late-IsValid (omega arith)
