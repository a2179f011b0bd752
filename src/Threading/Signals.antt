-- ===== src/Threading/Signals.antt =====
-- The word of signals of src/threading.c is a set of the numbers below 16.
use Prim.Native.Nat.{bit_and, bit_or, max, min}
use sapphire_os.Prelude.{
  ◌==◌, if◌then◌else◌, lt→ltb, power, bit, bit-lt, bit-bit_and, bit-bit_or, bit_and-power,
  bit-power, bit-mask, Returns, ok, returns, ℕ, zero, suc, ◌-◌, ◌*◌, ◌^◌, ◌<◌, ◌≡◌, refl, sym, ap,
  ◌∙◌, Bool, true, false, not, ◌&&◌, ◌||◌, arith,
}
use sapphire_os.Threading.{
  Scheduler, max_signals, thread_signal, thread_clear_signal, thread_signalled,
}

two_power : (n : ℕ) → 2 ^ n ≡ power n
two_power zero = refl
two_power (suc n) = omega (arith, two_power n)

power-positive : (n : ℕ) → 0 < power n
power-positive zero = omega arith
power-positive (suc n) = omega (arith, power-positive n)

-- the test of a signal is that of its digit
thread_signalled-bit :
    (n : ℕ) (s : Scheduler) → n < max_signals → thread_signalled n s ≡ ok (bit s.signals n == 1)
unfolding thread_signalled
thread_signalled-bit n s l =
    let word : bit_and s.signals (2 ^ n) ≡ bit s.signals n * power n =
      ap (bit_and s.signals) (two_power n) ∙ bit_and-power n s.signals in
    rw (lt→ltb n max_signals l, word)
      (ap (λ b. ok b) (digit (bit s.signals n) (power n) (bit-lt s.signals n) (power-positive n)))
  where
    digit : (b p : ℕ) → b < 2 → 0 < p → not (b * p == 0) ≡ (b == 1)
    digit zero p l m = ground arith
    digit (suc zero) p l m = ground arith
    digit (suc (suc b)) p l m = absurd (omega arith)

or_digit : (b : ℕ) (same : Bool) → b < 2 → (max b (if same then 1 else 0) == 1) ≡ (same || (b == 1))
or_digit b true l = ground arith
or_digit b false l = ground arith

and_digit :
    (b : ℕ) (same : Bool) → b < 2 → (min b (if same then 0 else 1) == 1) ≡ (not same && (b == 1))
and_digit b true l = ground arith
and_digit b false l = ground arith

ok-injective : {a b : Bool} → ok a ≡ ok b → a ≡ b
ok-injective e = cc

-- After a signal is sent, that signal is there, and any other one is as it was before. After a signal is
-- cleared, it is not there, and any other one is as it was before.
pub thread_signalled-set :
    (n m : ℕ) (s : Scheduler) (was : Bool)
    → n < max_signals
    → m < max_signals
    → thread_signalled m s ≡ ok was
    → Returns (λ t. thread_signalled m t ≡ ok ((n == m) || was)) (thread_signal n s)
      × Returns (λ t. thread_signalled m t ≡ ok (not (n == m) && was)) (thread_clear_signal n s)
unfolding thread_signal thread_clear_signal
thread_signalled-set n m s was l k e =
    let before : was ≡ (bit s.signals m == 1) = ok-injective (sym e ∙ thread_signalled-bit m s k) in
    rw (lt→ltb n max_signals l) (
      returns (
          thread_signalled-bit m
            (record s { signals = bit_or s.signals (2 ^ n); signal = true; sleep = false }) k
          ∙ ap (λ w. ok (w == 1))
              (ap (λ p. bit (bit_or s.signals p) m) (two_power n)
                ∙ bit-bit_or s.signals (power n) m
                ∙ ap (max (bit s.signals m)) (bit-power n m))
          ∙ ap (λ b. ok b)
              (or_digit (bit s.signals m) (n == m) (bit-lt s.signals m)
                ∙ ap (λ b. (n == m) || b) (sym before))),
      returns (
          thread_signalled-bit m (record s { signals = bit_and s.signals (2 ^ 16 - 1 - 2 ^ n) }) k
          ∙ ap (λ w. ok (w == 1))
              (ap (λ p. bit (bit_and s.signals (2 ^ 16 - 1 - p)) m) (two_power n)
                ∙ bit-bit_and s.signals (2 ^ 16 - 1 - power n) m
                ∙ ap (min (bit s.signals m)) (bit-mask 16 n m l k))
          ∙ ap (λ b. ok b)
              (and_digit (bit s.signals m) (n == m) (bit-lt s.signals m)
                ∙ ap (λ b. not (n == m) && b) (sym before))),
    )
