-- ===== src/Ip/Checksum.antt =====
-- The checksum of src/ip.c is the ones' complement sum of the 16-bit words.
use sapphire_os.Prelude.{
  ltb, Bool-cases, add16, ℕ, ◌+◌, ◌*◌, ◌%◌, ◌^◌, ◌<◌, ◌≡◌, inl, inr, List, [], ◌∷◌, arith,
}
use sapphire_os.Ip.{add_carry, sum_bytes, checksum}

abbrev pub AllBytes : List ℕ → Type 0
AllBytes [] = Unit
AllBytes (b ∷ bs) = (b < 2 ^ 8) × AllBytes bs

-- the sum of the big-endian words, the last one filled up with a zero byte
abbrev pub words : List ℕ → ℕ
words [] = 0
words (a ∷ []) = a * 256
words (a ∷ b ∷ rest) = a * 256 + b + words rest

-- `r` is what is left of `total` when 65535 is subtracted, and it is not zero where `sum` is not
pub record Folded (sum total r : ℕ) : Type 0 where
  pub times : ℕ
  pub whole : r + 65535 * times ≡ total
  pub small : r < 2 ^ 16
  pub nonzero : 0 < sum → 0 < r

pub add_carry-Folded :
    (sum temp : ℕ) → sum < 2 ^ 16 → temp < 2 ^ 16 → Folded sum (sum + temp) (add_carry sum temp)
unfolding add_carry
add_carry-Folded sum temp l m = elim (Bool-cases (ltb (add16 sum temp) temp)) [
  | inl e ↦ record {
    times = 1;
    whole = ground arith;
    small = ground arith;
    nonzero = λ p. ground arith;
  }
  | inr e ↦ record {
    times = 0;
    whole = ground arith;
    small = ground arith;
    nonzero = λ p. ground arith;
  }
]

pub sum_bytes-Folded :
    (sum : ℕ) (bs : List ℕ)
    → sum < 2 ^ 16
    → AllBytes bs
    → Folded sum (sum + words bs) (sum_bytes sum bs)
unfolding sum_bytes
sum_bytes-Folded sum [] l b = record { times = 0; whole = omega arith; small = l; nonzero = λ p. p }
sum_bytes-Folded sum (x ∷ []) l b = add_carry-Folded sum (x * 256) l (omega (arith, b))
sum_bytes-Folded sum (x ∷ y ∷ rest) l b =
    let one = add_carry-Folded sum (x * 256 + y) l (omega (arith, b)) in
    let all = sum_bytes-Folded (add_carry sum (x * 256 + y)) rest one.small b.1.1 in
    record {
      times = one.times + all.times;
      whole = omega (arith, one.whole, all.whole);
      small = all.small;
      nonzero = λ p. all.nonzero (one.nonzero p);
    }

-- The checksum of bytes makes the sum of their words divisible by 65535, and fits 16 bits.
pub checksum-words :
    (bs : List ℕ) → AllBytes bs → ((words bs + checksum bs) % 65535 ≡ 0) × (checksum bs < 2 ^ 16)
unfolding checksum
checksum-words bs b =
    let f = sum_bytes-Folded 0 bs (omega arith) b in omega (arith, f.whole, f.small)

-- Bytes that do not begin with two zeroes and whose words add up to a multiple of 65535 have the
-- checksum 0.
pub checksum-zero :
    (a b : ℕ) (bs : List ℕ)
    → AllBytes (a ∷ b ∷ bs)
    → 0 < a
    → words (a ∷ b ∷ bs) % 65535 ≡ 0
    → checksum (a ∷ b ∷ bs) ≡ 0
unfolding checksum sum_bytes
checksum-zero a b bs all p e =
    let one = add_carry-Folded 0 (a * 256 + b) (omega arith) (omega (arith, all)) in
    let rest = sum_bytes-Folded (add_carry 0 (a * 256 + b)) bs one.small all.1.1 in
    let first : 0 < add_carry 0 (a * 256 + b) = unfold add_carry in ground (arith, all) in
    omega (arith, one.whole, rest.whole, rest.small, rest.nonzero first)
