-- ===== src/Timers/Spans.antt =====
-- The order of times of src/timers.c, across the wrap-around of the 32-bit time.
use sapphire_os.Prelude.{minus_one, add32, sub32, pos, ℕ, ◌-◌, ◌^◌, ◌<◌, ◌≡◌, ◌↔◌, arith}
use sapphire_os.Timers.{sign32, compare_times}

-- A time less than 2^31 milliseconds after another compares as later and the other as earlier, also
-- where the sum wraps around.
pub compare_times-later :
    (time delay : ℕ)
    → time < 2 ^ 32
    → 0 < delay
    → delay < 2 ^ 31
    → (compare_times (add32 time delay) time ≡ pos 1)
      × (compare_times time (add32 time delay) ≡ minus_one)
unfolding compare_times sign32
compare_times-later time delay l p h =
    let after : sub32 (add32 time delay) time ≡ delay = omega arith in
    let before : sub32 time (add32 time delay) ≡ 2 ^ 32 - delay = omega arith in
    rw (after, before) (ground arith, ground arith)

-- Two times compare as equal exactly where they are the same.
pub compare_times-zero :
    (time1 time2 : ℕ)
    → time1 < 2 ^ 32
    → time2 < 2 ^ 32
    → (compare_times time1 time2 ≡ pos 0) ↔ (time1 ≡ time2)
unfolding compare_times sign32
compare_times-zero time1 time2 l m = (λ e. ground arith, λ e. ground arith)
