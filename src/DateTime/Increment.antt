-- ===== src/DateTime/Increment.antt =====
-- `datetime_v_increment_seconds` steps to the next second of the calendar.
use sapphire_os.Prelude.{
  ltb, ◌==◌, if◌then◌else◌, ltb→lt, Bool-cases, add8, add16, >>=-eq-ok, Returns, ok, returns, ℕ,
  zero, suc, ◌+◌, ◌-◌, ◌≤◌, ◌<◌, ◌≡◌, refl, sym, ap, ◌∙◌, inl, inr, Bool, true, false, not, ◌&&◌,
  arith,
}
use sapphire_os.DateTime.{
  DateTime, table_days, month_days, is_leap_year, february, february_leap_year_days, increment_day,
  increment_seconds,
}
use sapphire_os.DateTime.Calendar.{
  is_leap_year-has_leap_day, year_length, year_start, month_length, months_span, seconds_of,
  IsValid,
}
use sapphire_os.DateTime.Loops.{month_days-eq, month_length_bounds}
use sapphire_os.DateTime.Convert.{year_length-span}

table_days-eq :
    (y m : ℕ)
    → 1 ≤ m
    → m ≤ 12
    → ((m == february) && is_leap_year y) ≡ false
    → table_days m ≡ ok (month_length y m)
unfolding month_days
table_days-eq y m a b c =
    let (x, e, f) = >>=-eq-ok (table_days m) _ (month_days-eq y m a b) in e ∙ (rw c at f)

february_days :
    (y m : ℕ) (leap : Bool)
    → is_leap_year y ≡ leap
    → ((m == february) && leap) ≡ true
    → month_length y m ≡ february_leap_year_days
unfolding month_length
february_days y m leap is e =
    let same = sym (is_leap_year-has_leap_day y) ∙ is in rw same (ground (arith, e))

days_read :
    (y m : ℕ)
    → 1 ≤ m
    → m ≤ 12
    → (if not ((m == february) && is_leap_year y) then table_days m else ok february_leap_year_days)
      ≡ ok (month_length y m)
unfolding month_length
days_read y m a b = elim (Bool-cases ((m == february) && is_leap_year y)) [
  | inl feb ↦ rw feb (ap (λ n. ok n) (sym (february_days y m (is_leap_year y) refl feb)))
  | inr other ↦ rw other (table_days-eq y m a b other)
]

-- the days that `increment_day` reads are the month's
increment_day-eq :
    (d : DateTime)
    → 1 ≤ d.month
    → d.month ≤ 12
    → increment_day d
      ≡ ok (
          if ltb (month_length d.year d.month) d.day
          then (if ltb 12 (add8 d.month 1)
              then record d { day = 1; month = 1; year = add16 d.year 1 }
              else record d { day = 1; month = add8 d.month 1 })
          else d)
unfolding increment_day
increment_day-eq d a b = rw (days_read d.year d.month a b)

-- one month more
months_span-suc :
    (y n month : ℕ)
    → months_span y (suc n) month ≡ months_span y n month + month_length y (month + n)
unfolding months_span
months_span-suc y zero month =
    let e : month + 0 ≡ month = omega arith in omega (arith, ap (month_length y) e)
months_span-suc y (suc n) month =
    let e : month + 1 + n ≡ month + suc n = omega arith in
    omega (arith, months_span-suc y n (month + 1), ap (month_length y) e)

month_step : (y m : ℕ) → 1 ≤ m → months_span y m 1 ≡ months_span y (m - 1) 1 + month_length y m
month_step y zero h = absurd (omega arith)
month_step y (suc n) h =
    let e : 1 + n ≡ suc n = omega arith in
    let e' : suc n - 1 ≡ n = omega arith in
    omega (arith, months_span-suc y n 1, ap (month_length y) e, ap (λ k. months_span y k 1) e')

year_step : (y : ℕ) → 1900 ≤ y → year_start (y + 1 - 1900) ≡ year_start (y - 1900) + year_length y
unfolding year_start
year_step y h =
    let e : y + 1 - 1900 ≡ suc (y - 1900) = omega arith in
    let e' : 1900 + (y - 1900) ≡ y = omega arith in rw e (omega (arith, ap year_length e'))

abbrev Stepped : DateTime → DateTime → Type 0
Stepped d d' = IsValid d' × (seconds_of d' ≡ seconds_of d + 1)

first_month : (y : ℕ) → months_span y (1 - 1) 1 ≡ 0
unfolding months_span
first_month y = refl

-- the step to the next day, at the last second of a day
next_day :
    (d : DateTime)
    → IsValid d
    → d.year < 65535
    → d.seconds ≡ 59
    → d.minutes ≡ 59
    → d.hours ≡ 23
    → Returns
        (Stepped d)
        (increment_day (record d { seconds = 0; minutes = 0; hours = 0; day = add8 d.day 1 }))
unfolding seconds_of
next_day d v l s m h =
    let len = month_length_bounds d.year d.month in
    let day : add8 d.day 1 ≡ d.day + 1 = omega (arith, v.day_last, len) in
    rw
      (
        day,
        increment_day-eq (record d { seconds = 0; minutes = 0; hours = 0; day = d.day + 1 })
            v.month_first v.month_last,
      )
      (elim (Bool-cases (ltb (month_length d.year d.month) (d.day + 1))) [
        | inr same ↦ rw same (returns (ground (arith, v), omega arith))
        | inl over ↦ rw over (elim (Bool-cases (ltb 12 (add8 d.month 1))) [
          | inr month ↦
              let e : add8 d.month 1 ≡ d.month + 1 = omega arith in
              let e' : d.month + 1 - 1 ≡ d.month = omega arith in
              rw (month, e)
                (returns (
                  ground (arith, v, month_length_bounds d.year (d.month + 1)),
                  omega (
                    arith,
                    month_step d.year d.month v.month_first,
                    ap (λ k. months_span d.year k 1) e',
                    ltb→lt _ _ over,
                  ),
                ))
          | inl year ↦
              let e : add16 d.year 1 ≡ d.year + 1 = omega arith in
              let twelve : d.month ≡ 12 = ground (arith, v) in
              rw (year, e)
                (returns (
                  ground (arith, v, month_length_bounds (d.year + 1) 1),
                  omega (
                    arith,
                    month_step d.year d.month v.month_first,
                    ap (λ k. months_span d.year k 1) twelve,
                    year_length-span d.year,
                    year_step d.year v.year,
                    first_month (d.year + 1),
                    ltb→lt _ _ over,
                  ),
                ))
        ])
      ])

-- A valid date and time before the end of the year 65534 is stepped, without an access outside the
-- table of months, to a valid date and time that is one second later.
pub increment_seconds-Converts :
    (d : DateTime)
    → IsValid d
    → d.year < 65535
    → Returns (λ d'. IsValid d' × (seconds_of d' ≡ seconds_of d + 1)) (increment_seconds d)
unfolding increment_seconds seconds_of
increment_seconds-Converts d v l = elim (Bool-cases (ltb (add8 d.seconds 1) 60)) [
  | inl second ↦ rw second (returns (ground (arith, v), ground (arith, v)))
  | inr s ↦ rw s (elim (Bool-cases (ltb (add8 d.minutes 1) 60)) [
    | inl minute ↦ rw minute (returns (ground (arith, v), ground (arith, v)))
    | inr m ↦ rw m (elim (Bool-cases (ltb (add8 d.hours 1) 24)) [
      | inl hour ↦ rw hour (returns (ground (arith, v), ground (arith, v)))
      | inr h ↦ rw h (next_day d v l (ground arith) (ground arith) (ground arith))
    ])
  ])
]
