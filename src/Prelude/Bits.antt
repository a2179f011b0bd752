-- ===== src/Prelude/Bits.antt =====
-- The operations of C on the binary digits of numbers.
use Prim.Native.Nat.{
  ℕ, zero, suc, ◌+◌, ◌-◌, ◌*◌, ◌/◌, ◌%◌, ◌^◌, ◌≤◌, ◌<◌, min, max, digits, differ, bit_and, bit_or,
  bit_xor, bit_and-bitwise, bit_or-bitwise, bit_xor-bitwise,
}
use mathlib.Core.Path.{◌≡◌, refl, ap, ◌∙◌}
use sapphire_os.Prelude.Tests.{◌==◌, if◌then◌else◌}
use native.Mathlib.Omega.{arith}

module _ (z : ℕ → ℕ) (f : ℕ → ℕ → ℕ) (start : (b : ℕ) → z b ≡ z (b / 2) * 2 + f 0 (b % 2)) where
  -- any count of digits that is not too small gives the same
  digits-enough : (k j a b : ℕ) → a ≤ k → a ≤ j → digits z f k a b ≡ digits z f j a b
  digits-enough zero zero a b p q = refl
  digits-enough zero (suc j) zero b p q = refl
  digits-enough (suc k) zero zero b p q = refl
  digits-enough (suc k) (suc j) zero b p q = refl
  digits-enough zero (suc j) (suc a) b p q = absurd (omega arith)
  digits-enough (suc k) zero (suc a) b p q = absurd (omega arith)
  digits-enough (suc k) (suc j) (suc a) b p q =
      let halves = digits-enough k j (suc a / 2) (b / 2) (omega arith) (omega arith) in
      omega (arith, halves)

  -- the lowest digit, and the others
  digits-halves :
      (a b : ℕ) → digits z f a a b ≡ digits z f (a / 2) (a / 2) (b / 2) * 2 + f (a % 2) (b % 2)
  digits-halves zero b = start b
  digits-halves (suc a) b =
      omega (arith, digits-enough a (suc a / 2) (suc a / 2) (b / 2) (omega arith) (omega arith))

pub bit_xor-halves : (a b : ℕ) → bit_xor a b ≡ bit_xor (a / 2) (b / 2) * 2 + differ (a % 2) (b % 2)
bit_xor-halves a b = omega (
  arith,
  bit_xor-bitwise a b,
  bit_xor-bitwise (a / 2) (b / 2),
  digits-halves (λ b. b) differ (λ b. omega arith) a b,
)

pub bit_and-halves : (a b : ℕ) → bit_and a b ≡ bit_and (a / 2) (b / 2) * 2 + min (a % 2) (b % 2)
bit_and-halves a b = omega (
  arith,
  bit_and-bitwise a b,
  bit_and-bitwise (a / 2) (b / 2),
  digits-halves (λ b. 0) min (λ b. omega arith) a b,
)

differ-lt : (x y : ℕ) → x < 2 → y < 2 → differ x y < 2
differ-lt zero y l m = m
differ-lt (suc x) zero l m = l
differ-lt (suc x) (suc y) l m = differ-lt x y (omega arith) (omega arith)

abbrev pub power : ℕ → ℕ
power zero = 1
power (suc k) = 2 * power k

pub bit_xor-lt_power : (k a b : ℕ) → a < power k → b < power k → bit_xor a b < power k
bit_xor-lt_power zero a b l m =
    let x : a ≡ 0 = omega arith in let y : b ≡ 0 = omega arith in rw (x, y) (omega arith)
bit_xor-lt_power (suc k) a b l m = omega (
  arith,
  bit_xor-halves a b,
  differ-lt (a % 2) (b % 2) (omega arith) (omega arith),
  bit_xor-lt_power k (a / 2) (b / 2) (omega arith) (omega arith),
)

pub bit_xor-lt : (a b : ℕ) → a < 2 ^ 16 → b < 2 ^ 16 → bit_xor a b < 2 ^ 16
bit_xor-lt a b l m = bit_xor-lt_power 16 a b l m

differ-twice : (x y : ℕ) → x < 2 → y < 2 → differ (differ x y) y ≡ x
differ-twice zero zero l m = refl
differ-twice zero (suc zero) l m = refl
differ-twice (suc zero) zero l m = refl
differ-twice (suc zero) (suc zero) l m = refl
differ-twice zero (suc (suc y)) l m = absurd (omega arith)
differ-twice (suc zero) (suc (suc y)) l m = absurd (omega arith)
differ-twice (suc (suc x)) y l m = absurd (omega arith)

-- what was added digit by digit is taken away the same way
pub bit_xor-twice_power : (k a b : ℕ) → a < power k → b < power k → bit_xor (bit_xor a b) b ≡ a
bit_xor-twice_power zero a b l m =
    let x : a ≡ 0 = omega arith in let y : b ≡ 0 = omega arith in rw (x, y) refl
bit_xor-twice_power (suc k) a b l m =
    let again = bit_xor-twice_power k (a / 2) (b / 2) (omega arith) (omega arith) in
    let bit = differ-lt (a % 2) (b % 2) (omega arith) (omega arith) in
    let halves = bit_xor-halves a b in
    let high : bit_xor a b / 2 ≡ bit_xor (a / 2) (b / 2) = omega (arith, halves, bit) in
    let low : bit_xor a b % 2 ≡ differ (a % 2) (b % 2) = omega (arith, halves, bit) in
    bit_xor-halves (bit_xor a b) b
    ∙ rw (high, low, again, differ-twice (a % 2) (b % 2) (omega arith) (omega arith)) (omega arith)

pub bit_xor-twice : (a b : ℕ) → a < 2 ^ 16 → b < 2 ^ 16 → bit_xor (bit_xor a b) b ≡ a
bit_xor-twice a b l m = bit_xor-twice_power 16 a b l m

pub bit_and-one : (n : ℕ) → bit_and n 1 ≡ n % 2
bit_and-one n = omega (arith, bit_and-halves n 1, nothing (n / 2))
  where
    none_left : (k a : ℕ) → digits (λ b. 0) min k a 0 ≡ 0
    none_left zero a = refl
    none_left (suc k) zero = refl
    none_left (suc k) (suc a) = omega (arith, none_left k (suc a / 2))

    nothing : (n : ℕ) → bit_and n 0 ≡ 0
    nothing n = omega (arith, bit_and-bitwise n 0, none_left n n)

pub bit_xor-zero : (a : ℕ) → bit_xor a 0 ≡ a
bit_xor-zero a = bit_xor-bitwise a 0 ∙ all (a) a (omega arith)
  where
    all : (k a : ℕ) → a ≤ k → digits (λ b. b) differ k a 0 ≡ a
    all zero a l = omega arith
    all (suc k) zero l = refl
    all (suc k) (suc a) l = omega (arith, all k (suc a / 2) (omega arith), keeps (suc a % 2))
      where
        keeps : (x : ℕ) → differ x 0 ≡ x
        keeps zero = refl
        keeps (suc x) = refl

-- the highest digit
pub bit_xor-high :
    (k a b : ℕ) → a < power k → power k ≤ b → b < power (suc k) → power k ≤ bit_xor a b
bit_xor-high zero a b l m n =
    let x : a ≡ 0 = omega arith in let y : b ≡ 1 = omega arith in rw (x, y) (omega arith)
bit_xor-high (suc k) a b l m n = omega (
  arith,
  bit_xor-halves a b,
  bit_xor-high k (a / 2) (b / 2) (omega arith) (omega arith) (omega arith),
)

pub bit_xor-low :
    (k a b : ℕ)
    → power k ≤ a
    → a < power (suc k)
    → power k ≤ b
    → b < power (suc k)
    → bit_xor a b < power k
bit_xor-low zero a b l m n o =
    let x : a ≡ 1 = omega arith in let y : b ≡ 1 = omega arith in rw (x, y) (omega arith)
bit_xor-low (suc k) a b l m n o = omega (
  arith,
  bit_xor-halves a b,
  differ-lt (a % 2) (b % 2) (omega arith) (omega arith),
  bit_xor-low k (a / 2) (b / 2) (omega arith) (omega arith) (omega arith) (omega arith),
)

lt_power : (k n : ℕ) → n ≤ k → n < power k
lt_power zero n l = omega arith
lt_power (suc k) n l = omega (arith, lt_power k k (omega arith))

pub bit_xor_comm : (a b : ℕ) → bit_xor a b ≡ bit_xor b a
bit_xor_comm a b =
    below (a + b) a b (lt_power (a + b) a (omega arith)) (lt_power (a + b) b (omega arith))
  where
    differ_comm : (x y : ℕ) → differ x y ≡ differ y x
    differ_comm zero zero = refl
    differ_comm zero (suc y) = refl
    differ_comm (suc x) zero = refl
    differ_comm (suc x) (suc y) = differ_comm x y

    below : (k a b : ℕ) → a < power k → b < power k → bit_xor a b ≡ bit_xor b a
    below zero a b l m =
        let x : a ≡ 0 = omega arith in let y : b ≡ 0 = omega arith in rw (x, y) refl
    below (suc k) a b l m = omega (
      arith,
      bit_xor-halves a b,
      bit_xor-halves b a,
      differ_comm (a % 2) (b % 2),
      below k (a / 2) (b / 2) (omega arith) (omega arith),
    )

-- adding the same number twice gives the other one back
pub bit_xor-undone : (a b : ℕ) → bit_xor (bit_xor a b) a ≡ b
bit_xor-undone a b = rw (bit_xor_comm a b) (
    bit_xor-twice_power (a + b) b a (lt_power (a + b) b (omega arith))
      (lt_power (a + b) a (omega arith)))

pub bit_or-halves : (a b : ℕ) → bit_or a b ≡ bit_or (a / 2) (b / 2) * 2 + max (a % 2) (b % 2)
bit_or-halves a b = omega (
  arith,
  bit_or-bitwise a b,
  bit_or-bitwise (a / 2) (b / 2),
  digits-halves (λ b. b) max (λ b. omega arith) a b,
)

-- one digit of a number
abbrev pub bit : ℕ → ℕ → ℕ
bit word zero = word % 2
bit word (suc n) = bit (word / 2) n

pub bit-lt : (word n : ℕ) → bit word n < 2
bit-lt word zero = omega arith
bit-lt word (suc n) = bit-lt (word / 2) n

pub bit-bit_and : (a b n : ℕ) → bit (bit_and a b) n ≡ min (bit a n) (bit b n)
bit-bit_and a b zero = omega (arith, bit_and-halves a b)
bit-bit_and a b (suc n) =
    let high : bit_and a b / 2 ≡ bit_and (a / 2) (b / 2) = omega (arith, bit_and-halves a b) in
    rw high (bit-bit_and (a / 2) (b / 2) n)

pub bit-bit_or : (a b n : ℕ) → bit (bit_or a b) n ≡ max (bit a n) (bit b n)
bit-bit_or a b zero = omega (arith, bit_or-halves a b)
bit-bit_or a b (suc n) =
    let high : bit_or a b / 2 ≡ bit_or (a / 2) (b / 2) = omega (arith, bit_or-halves a b) in
    rw high (bit-bit_or (a / 2) (b / 2) n)

pub bit_and-power : (n word : ℕ) → bit_and word (power n) ≡ bit word n * power n
bit_and-power zero word = omega (arith, bit_and-one word)
bit_and-power (suc n) word =
    let half : power (suc n) / 2 ≡ power n = omega arith in
    let halves : bit_and word (power (suc n))
        ≡ bit_and (word / 2) (power n) * 2 + min (word % 2) (power (suc n) % 2) =
      bit_and-halves word (power (suc n)) ∙ rw half refl in
    halves ∙ rw (bit_and-power n (word / 2)) (omega arith)

bit-zero : (n : ℕ) → bit 0 n ≡ 0
bit-zero zero = refl
bit-zero (suc n) = bit-zero n

pub bit-power : (m n : ℕ) → bit (power m) n ≡ (if m == n then 1 else 0)
bit-power zero zero = refl
bit-power zero (suc n) = bit-zero n ∙ ground arith
bit-power (suc m) zero = ground arith
bit-power (suc m) (suc n) =
    let half : power (suc m) / 2 ≡ power m = omega arith in
    ap (λ w. bit w n) half ∙ bit-power m n ∙ ground arith

power-lt : (k m : ℕ) → m < k → power m < power k
power-lt zero m l = absurd (omega arith)
power-lt (suc k) zero l = omega (arith, lt_power k 0 (omega arith))
power-lt (suc k) (suc m) l = omega (arith, power-lt k m (omega arith))

bit-ones : (k n : ℕ) → n < k → bit (power k - 1) n ≡ 1
bit-ones zero n l = absurd (omega arith)
bit-ones (suc k) zero l = omega (arith, lt_power k 0 (omega arith))
bit-ones (suc k) (suc n) l =
    let half : (power (suc k) - 1) / 2 ≡ power k - 1 = omega arith in
    ap (λ w. bit w n) half ∙ bit-ones k n (omega arith)

-- all digits but one
pub bit-mask :
    (k m n : ℕ) → m < k → n < k → bit (power k - 1 - power m) n ≡ (if m == n then 0 else 1)
bit-mask zero m n l p = absurd (omega arith)
bit-mask (suc k) zero zero l p = omega (arith, lt_power k 0 (omega arith))
bit-mask (suc k) zero (suc n) l p =
    let half : (power (suc k) - 1 - 1) / 2 ≡ power k - 1 =
      omega (arith, lt_power k 0 (omega arith)) in
    ap (λ w. bit w n) half ∙ bit-ones k n (omega arith) ∙ ground arith
bit-mask (suc k) (suc m) zero l p = ground (arith, power-lt k m (omega arith))
bit-mask (suc k) (suc m) (suc n) l p =
    let half : (power (suc k) - 1 - power (suc m)) / 2 ≡ power k - 1 - power m =
      omega (arith, power-lt k m (omega arith)) in
    ap (λ w. bit w n) half ∙ bit-mask k m n (omega arith) (omega arith) ∙ ground arith
