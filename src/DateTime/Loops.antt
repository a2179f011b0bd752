-- ===== src/DateTime/Loops.antt =====
-- The loops of `datetime_v_seconds_to_datetime` find the year and the month of the calendar.
use sapphire_os.Prelude.{
  ltb, leb, ltb→lt, Bool-cases, add16, sub16, sub32, mul32, ◌>>=◌, Returns-mono, Returns, ok,
  returns, ℕ, zero, suc, ◌+◌, ◌-◌, ◌*◌, ◌^◌, ◌≤◌, ◌<◌, ◌≡◌, refl, ap, inl, inr, true, arith,
}
use mathlib.Core.Path.{subst}
use sapphire_os.DateTime.{table_days, year_loop, month_days, month_loop, seconds_per_day}
use sapphire_os.DateTime.Calendar.{
  is_leap_year-has_leap_day, year_length, year_start, month_length, months_span,
}

pub year_length_bounds : (y : ℕ) → (365 ≤ year_length y) × (year_length y ≤ 366)
unfolding year_length
year_length_bounds y = ground arith

pub year_start-le : (n : ℕ) → 365 * n ≤ year_start n
unfolding year_start
year_start-le zero = omega arith
year_start-le (suc n) = omega (arith, year_start-le n, year_length_bounds (1900 + n))

-- where the loop over the years ends: behind the year that holds the day
abbrev pub YearOf : ℕ → ℕ × ℕ → Type 0
YearOf days (next, year) =
    (n : ℕ) × (year ≡ 1900 + n)
    × (next ≡ year_start n + year_length (1900 + n))
    × (year_start n ≤ days)
    × (days < year_start n + year_length (1900 + n))
    × (n < 137)

-- one round of the loop does not wrap
year_loop_step :
    (k days n : ℕ)
    → year_start n ≤ days
    → days < 49711
    → year_loop (suc k) days (year_start n) (1899 + n)
      ≡ year_loop k days (year_start n + year_length (1900 + n)) (1900 + n)
unfolding year_loop year_length
year_loop_step k days n h l =
    let small = year_start-le n in
    let go : leb (year_start n) days ≡ true = ground arith in
    let year : add16 (1899 + n) 1 ≡ 1900 + n = omega arith in
    rw (go, year_loop)
      (rw (year) (
        rw (is_leap_year-has_leap_day (1900 + n))
          (ap (λ t. year_loop k days t (1900 + n)) (ground arith))))

pub year_loop-YearOf :
    (k days n : ℕ)
    → year_start n ≤ days
    → days < 49711
    → days < year_start n + 365 * k
    → Returns (YearOf days) (year_loop (suc k) days (year_start n) (1899 + n))
unfolding year_start year_loop year_length
year_loop-YearOf zero days n h l f = absurd (omega arith)
year_loop-YearOf (suc k) days n h l f =
    rw (year_loop_step (suc k) days n h l) (elim (Bool-cases (leb (year_start (suc n)) days)) [
      | inl more ↦
          let e : 1899 + suc n ≡ 1900 + n = omega arith in
          subst (λ y. Returns (YearOf days) (year_loop (suc k) days (year_start (suc n)) y)) e
            (year_loop-YearOf k days (suc n) (ground arith) l
              (omega (arith, year_length_bounds (1900 + n))))
      | inr last ↦
          rw (last, year_loop)
            (returns (n, refl, refl, h, ground arith, omega (arith, year_start-le n)))
    ])

-- the table and the leap years give the calendar's months
month_days-suc : (y i : ℕ) → i < 12 → month_days y (suc i) ≡ ok (month_length y (suc i))
unfolding month_days table_days month_length
month_days-suc y zero h = refl
month_days-suc y (suc zero) h = rw (is_leap_year-has_leap_day y) (ground arith)
month_days-suc y (suc (suc zero)) h = refl
month_days-suc y (suc (suc (suc zero))) h = refl
month_days-suc y (suc (suc (suc (suc zero)))) h = refl
month_days-suc y (suc (suc (suc (suc (suc zero))))) h = refl
month_days-suc y (suc (suc (suc (suc (suc (suc zero)))))) h = refl
month_days-suc y (suc (suc (suc (suc (suc (suc (suc zero))))))) h = refl
month_days-suc y (suc (suc (suc (suc (suc (suc (suc (suc zero)))))))) h = refl
month_days-suc y (suc (suc (suc (suc (suc (suc (suc (suc (suc zero))))))))) h = refl
month_days-suc y (suc (suc (suc (suc (suc (suc (suc (suc (suc (suc zero)))))))))) h = refl
month_days-suc y (suc (suc (suc (suc (suc (suc (suc (suc (suc (suc (suc zero))))))))))) h = refl
month_days-suc y (suc (suc (suc (suc (suc (suc (suc (suc (suc (suc (suc (suc i)))))))))))) h =
    absurd (omega arith)

pub month_days-eq : (y m : ℕ) → 1 ≤ m → m ≤ 12 → month_days y m ≡ ok (month_length y m)
month_days-eq y zero h l = absurd (omega arith)
month_days-eq y (suc i) h l = month_days-suc y i (omega arith)

pub month_length_bounds : (y m : ℕ) → (28 ≤ month_length y m) × (month_length y m ≤ 31)
unfolding month_length
month_length_bounds y m = ground arith

-- where the loop over the months ends: in the month that holds the day
abbrev pub MonthOf : ℕ → ℕ → ℕ → ℕ → ℕ → ℕ × ℕ × ℕ → Type 0
MonthOf y n month doy seconds (m, d, left) =
    (j : ℕ) × (j < n)
    × (m ≡ month + j)
    × (1 ≤ d)
    × (d ≤ month_length y m)
    × (doy + 1 ≡ months_span y j month + d)
    × (left + doy * seconds_per_day ≡ seconds)

pub month_loop-MonthOf :
    (y n month doy seconds : ℕ) (old : ℕ × ℕ)
    → 1 ≤ month
    → month + n ≤ 13
    → doy < months_span y n month
    → doy * seconds_per_day ≤ seconds
    → seconds < 2 ^ 32
    → doy < 366
    → Returns (MonthOf y n month doy seconds) (month_loop n y month doy seconds old)
unfolding month_loop months_span
month_loop-MonthOf y zero month doy seconds old a b c d e g = absurd (omega arith)
month_loop-MonthOf y (suc n) month doy seconds old a b c d e g =
    let bounds = month_length_bounds y month in
    rw (month_days-eq y month a (omega arith), month_loop)
      (elim (Bool-cases (ltb doy (month_length y month))) [
        | inl here ↦
            let small = ltb→lt _ _ here in
            rw (here, ◌>>=◌)
              (returns (
                0,
                omega arith,
                omega arith,
                omega (arith, bounds),
                omega (arith, bounds),
                omega (arith, bounds),
                omega arith,
              ))
        | inr on ↦
            let len = month_length y month in
            let far : len ≤ doy = ground arith in
            let days : sub16 doy len ≡ doy - len = omega (arith, bounds) in
            let rest : sub32 seconds (mul32 len seconds_per_day) ≡ seconds - len * seconds_per_day =
              omega (arith, bounds) in
            rw (on, ◌>>=◌)
              (rw (days, rest)
                (Returns-mono
                  (month_loop-MonthOf y n (month + 1) (doy - len) (seconds - len * seconds_per_day)
                    old (omega arith) (omega arith) (omega arith) (omega arith) (omega arith)
                    (omega arith))
                  λ out (j, lt, at, first, last, span, left).
                    (suc j, omega arith, omega arith, first, last, omega arith, omega arith)))
      ])
