-- ===== src/Random.antt =====
-- src/random.c, the generator of pseudo-random numbers: a shift register of 16 bits that is fed back.
-- The radio's random numbers, rf_u8_get_random, are a parameter on the state of the radio.
pub mod Steps
pub mod Words
mod Tests
use Prim.Native.Nat.{bit_and, bit_or, bit_xor}
use sapphire_os.Prelude.{
  ◌==◌, if◌then◌else◌, ℕ, zero, suc, ◌+◌, ◌-◌, ◌*◌, ◌/◌, ◌%◌, ◌^◌, List, [], ◌∷◌,
}

-- `lfsr`, and the radio
pub record Random (R : Type 0) : Type 0 where
  pub lfsr : ℕ
  pub radio : R

-- `( lfsr >> 1 ) ^ ( -( lfsr & 1 ) & 0xB400 )`, in 16 bits
unfoldable pub lfsr_step : ℕ → ℕ
lfsr_step lfsr = bit_xor (lfsr / 2) (bit_and ((2 ^ 16 - bit_and lfsr 1) % 2 ^ 16) 0xb400)

-- one of the eight steps that make a byte
unfoldable pub byte_step : ℕ → ℕ → ℕ × ℕ
byte_step value lfsr =
    let next = lfsr_step lfsr in (bit_or value (bit_and next 1) * 2 % 2 ^ 8, next)

unfoldable pub byte_steps : ℕ → ℕ → ℕ → ℕ × ℕ
byte_steps zero value lfsr = (value, lfsr)
byte_steps (suc n) value lfsr =
    let (value', lfsr') = byte_step value lfsr in byte_steps n value' lfsr'

-- `rnd_u16_get_int`, on the register
unfoldable pub next_int : ℕ → ℕ × ℕ
next_int lfsr =
    let (value0, lfsr0) = byte_steps 8 0 lfsr in
    let (value1, lfsr1) = byte_steps 8 0 lfsr0 in ((value1 * 2 ^ 8 + value0) % 2 ^ 16, lfsr1)

-- `rnd_v_fill`
unfoldable pub fill_loop : ℕ → ℕ → List ℕ × ℕ
fill_loop zero lfsr = ([], lfsr)
fill_loop (suc len) lfsr =
    let (value, lfsr') = next_int lfsr in
    let (bytes, lfsr'') = fill_loop len lfsr' in (value % 2 ^ 8 ∷ bytes, lfsr'')

module _ {R : Type 0} (rf_get_random : R → ℕ × R) where
  -- `init_random`
  unfoldable pub init_random : Random R → Random R
  init_random s =
      let (low, radio0) = rf_get_random s.radio in
      let (high, radio1) = rf_get_random radio0 in
      let lfsr = bit_or (low % 2 ^ 16) (high * 2 ^ 8 % 2 ^ 16) in
      record { lfsr = if lfsr == 0 then 1 else lfsr; radio = radio1 }

  -- `rnd_u16_get_int_hw`; C leaves open which of its two calls is first, here it is the left one
  unfoldable pub get_int_hw : Random R → ℕ × Random R
  get_int_hw s =
      let (high, radio0) = rf_get_random s.radio in
      let (low, radio1) = rf_get_random radio0 in
      ((high * 2 ^ 8 + low) % 2 ^ 16, record s { radio = radio1 })

module _ {R : Type 0} where
  -- `rnd_v_seed`: the register keeps the lower 16 bits
  unfoldable pub seed : ℕ → Random R → Random R
  seed value s = record s { lfsr = value % 2 ^ 16 }

  unfoldable pub get_int : Random R → ℕ × Random R
  get_int s = let (value, lfsr) = next_int s.lfsr in (value, record s { lfsr = lfsr })

  unfoldable pub fill : ℕ → Random R → List ℕ × Random R
  fill len s = let (bytes, lfsr) = fill_loop len s.lfsr in (bytes, record s { lfsr = lfsr })
