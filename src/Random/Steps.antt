-- ===== src/Random/Steps.antt =====
-- The step of the shift register of src/random.c can be taken back.
use Prim.Native.Nat.{bit_xor}
use sapphire_os.Prelude.{
  ltb, if◌then◌else◌, ltb→lt, lt→ltb, le→not_ltb, Bool-cases, bit_xor-lt, bit_xor-twice,
  bit_and-one, bit_xor-zero, bit_xor-high, bit_xor-low, ℕ, ◌+◌, ◌*◌, ◌/◌, ◌%◌, ◌^◌, ◌<◌, ◌≡◌, refl,
  ◌∙◌, ◌⊎◌, inl, inr, arith,
}
use sapphire_os.Random.{lfsr_step}

-- the register before a step: the bit that the step shifted out is the highest one after it
abbrev pub unstep : ℕ → ℕ
unstep lfsr = if ltb lfsr (2 ^ 15) then lfsr * 2 else bit_xor lfsr 0xb400 * 2 + 1

lfsr_step-even : (l : ℕ) → l % 2 ≡ 0 → lfsr_step l ≡ l / 2
unfolding lfsr_step
lfsr_step-even l e = rw (bit_and-one l, e) (bit_xor-zero (l / 2))

lfsr_step-odd : (l : ℕ) → l % 2 ≡ 1 → lfsr_step l ≡ bit_xor (l / 2) 0xb400
unfolding lfsr_step
lfsr_step-odd l e = rw (bit_and-one l, e) refl

parity : (l : ℕ) → (l % 2 ≡ 0) ⊎ (l % 2 ≡ 1)
parity l = omega arith

pub lfsr_step-lt : (l : ℕ) → l < 2 ^ 16 → lfsr_step l < 2 ^ 16
lfsr_step-lt l b = elim (parity l) [
  | inl e ↦ rw (lfsr_step-even l e) (omega arith)
  | inr e ↦ rw (lfsr_step-odd l e) (bit_xor-lt (l / 2) 0xb400 (omega arith) (omega arith))
]

unstep-lfsr_step : (l : ℕ) → l < 2 ^ 16 → unstep (lfsr_step l) ≡ l
unstep-lfsr_step l b = elim (parity l) [
  | inl e ↦ rw (lfsr_step-even l e, lt→ltb (l / 2) (2 ^ 15) (omega arith)) (omega arith)
  | inr e ↦
      let high = bit_xor-high 15 (l / 2) 0xb400 (omega arith) (omega arith) (omega arith) in
      rw (lfsr_step-odd l e, le→not_ltb (bit_xor (l / 2) 0xb400) (2 ^ 15) high)
        (omega (arith, bit_xor-twice (l / 2) 0xb400 (omega arith) (omega arith)))
]

lfsr_step-unstep : (l : ℕ) → l < 2 ^ 16 → lfsr_step (unstep l) ≡ l
lfsr_step-unstep l b = elim (Bool-cases (ltb l (2 ^ 15))) [
  | inl e ↦ rw e (lfsr_step-even (l * 2) (omega arith) ∙ omega arith)
  | inr e ↦
      let back = bit_xor-twice l 0xb400 b (omega arith) in
      let half : (bit_xor l 0xb400 * 2 + 1) / 2 ≡ bit_xor l 0xb400 = omega arith in
      rw e (lfsr_step-odd (bit_xor l 0xb400 * 2 + 1) (omega arith) ∙ rw half back)
]

unstep-lt : (l : ℕ) → l < 2 ^ 16 → unstep l < 2 ^ 16
unstep-lt l b = elim (Bool-cases (ltb l (2 ^ 15))) [
  | inl e ↦ rw e (omega (arith, ltb→lt l (2 ^ 15) e))
  | inr e ↦ rw e (
      omega
        (arith, bit_xor-low 15 l 0xb400 (ground arith) (omega arith) (omega arith) (omega arith)))
]

-- The step of the shift register is a permutation of the numbers of 16 bits: each of them is the step of
-- exactly one of them. It has a step back, which moves the highest bit back to the place of the lowest.
pub lfsr_step-permutes :
    (l : ℕ)
    → l < 2 ^ 16
    → (lfsr_step l < 2 ^ 16)
      × (unstep (lfsr_step l) ≡ l)
      × (unstep l < 2 ^ 16)
      × (lfsr_step (unstep l) ≡ l)
lfsr_step-permutes l b =
    (lfsr_step-lt l b, unstep-lfsr_step l b, unstep-lt l b, lfsr_step-unstep l b)

-- a step does not reach 0 from elsewhere
pub lfsr_step-nonzero : (l : ℕ) → l < 2 ^ 16 → 0 < l → 0 < lfsr_step l
lfsr_step-nonzero l b p = elim (parity l) [
  | inl e ↦ rw (lfsr_step-even l e) (omega arith)
  | inr e ↦
      rw (lfsr_step-odd l e)
        (omega (arith, bit_xor-high 15 (l / 2) 0xb400 (omega arith) (omega arith) (omega arith)))
]
