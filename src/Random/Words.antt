-- ===== src/Random/Words.antt =====
-- The numbers that src/random.c makes of the steps of its shift register.
use Prim.Native.Nat.{bit_or, bit_and}
use sapphire_os.Prelude.{ℕ, zero, suc, ◌*◌, ◌/◌, ◌%◌, ◌^◌, ◌<◌, ◌≡◌, refl, arith}
use sapphire_os.Random.{lfsr_step, byte_step, byte_steps, next_int, Random, get_int}
use sapphire_os.Random.Steps.{lfsr_step-lt, lfsr_step-nonzero}

-- the register holds one of the numbers that its steps go through
abbrev pub IsRunning : ℕ → Type 0
IsRunning lfsr = (0 < lfsr) × (lfsr < 2 ^ 16)

abbrev pub IsEvenByte : ℕ → Type 0
IsEvenByte value = (value % 2 ≡ 0) × (value < 2 ^ 8)

lfsr_step-IsRunning : (l : ℕ) → IsRunning l → IsRunning (lfsr_step l)
lfsr_step-IsRunning l r = (lfsr_step-nonzero l r.1 r.0, lfsr_step-lt l r.1)

byte_steps-IsEvenByte :
    (n value l : ℕ)
    → IsEvenByte value
    → IsRunning l
    → IsEvenByte (byte_steps n value l).0 × IsRunning (byte_steps n value l).1
unfolding byte_steps byte_step
byte_steps-IsEvenByte zero value l e r = (e, r)
byte_steps-IsEvenByte (suc n) value l e r =
    byte_steps-IsEvenByte n (bit_or value (bit_and (lfsr_step l) 1) * 2 % 2 ^ 8) (lfsr_step l)
      (omega arith, omega arith) (lfsr_step-IsRunning l r)

-- A running shift register goes on running, and both bytes of the number of 16 bits that it gives are
-- even: each of them is shifted once more after its last bit was set.
pub get_int-even :
    {R : Type 0} (s : Random R)
    → IsRunning s.lfsr
    → let (value, t) = get_int s in
      (value < 2 ^ 16) × (value % 2 ≡ 0) × (value / 2 ^ 8 % 2 ≡ 0) × IsRunning t.lfsr
unfolding get_int next_int
get_int-even s r =
    let first = byte_steps-IsEvenByte 8 0 s.lfsr (refl, omega arith) r in
    let second = byte_steps-IsEvenByte 8 0 (byte_steps 8 0 s.lfsr).1 (refl, omega arith) first.1 in
    (omega arith, omega (arith, first.0.0), omega (arith, first.0.1, second.0.0), second.1)
