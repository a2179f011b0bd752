-- ===== src/Crc/Blocks.antt =====
-- The CRC of a block, taken in parts and as a whole.
use Prim.Native.Nat.{bit_xor}
use sapphire_os.Prelude.{
  bit_xor-lt, ◌>>=◌, Run, ok, assert_failed, out_of_bounds, out_of_fuel, ℕ, ◌+◌, ◌*◌, ◌/◌, ◌%◌, ◌^◌,
  ◌<◌, ◌≡◌, refl, ◌∙◌, List, [], ◌∷◌, ◌++◌, arith,
}
use sapphire_os.Crc.{crc_byte, partial_block, crc_block}
use sapphire_os.Crc.Polynomial.{remainder, crctab-remainder}

bind-cong :
    (run : Run ℕ) (one two : ℕ → Run ℕ)
    → ((next : ℕ) → one next ≡ two next)
    → (run >>= one) ≡ (run >>= two)
bind-cong (ok next) one two e = e next
bind-cong assert_failed one two e = refl
bind-cong out_of_bounds one two e = refl
bind-cong out_of_fuel one two e = refl

bind-bind :
    (run : Run ℕ) (one two : ℕ → Run ℕ)
    → (run >>= λ next. one next >>= two) ≡ ((run >>= one) >>= two)
bind-bind (ok next) one two = refl
bind-bind assert_failed one two = refl
bind-bind out_of_bounds one two = refl
bind-bind out_of_fuel one two = refl

-- The CRC of a block taken in two parts is that of the block.
pub partial_block-append :
    (crc : ℕ) (xs ys : List ℕ)
    → partial_block crc (xs ++ ys) ≡ (partial_block crc xs >>= λ next. partial_block next ys)
unfolding partial_block
partial_block-append crc [] ys = refl
partial_block-append crc (x ∷ xs) ys =
    bind-cong (crc_byte crc x) _ _ (λ next. partial_block-append next xs ys)
    ∙ bind-bind (crc_byte crc x) (λ next. partial_block next xs) (λ next. partial_block next ys)

-- one byte, by division: the upper byte of the CRC is replaced by its remainder
crc_byte-remainder :
    (crc byte : ℕ)
    → crc < 2 ^ 16
    → crc_byte crc byte ≡ ok (bit_xor (crc % 2 ^ 8 * 2 ^ 8 + byte) (remainder (crc / 2 ^ 8)))
unfolding crc_byte
crc_byte-remainder crc byte l =
    let high : crc / 2 ^ 8 % 2 ^ 8 ≡ crc / 2 ^ 8 = omega arith in
    let low : crc * 2 ^ 8 % 2 ^ 16 ≡ crc % 2 ^ 8 * 2 ^ 8 = omega arith in
    rw (high, low, (crctab-remainder (crc / 2 ^ 8) (omega arith)).0)

-- the bytes fit, and so does the CRC
pub data Bytes : List ℕ → Type 0 where
  nil : Bytes []
  cons : {b : ℕ} {bs : List ℕ} → b < 2 ^ 8 → Bytes bs → Bytes (b ∷ bs)

-- division of a message by the polynomial, byte by byte
unfoldable pub divide : ℕ → List ℕ → ℕ
divide crc [] = crc
divide crc (b ∷ bs) = divide (bit_xor (crc % 2 ^ 8 * 2 ^ 8 + b) (remainder (crc / 2 ^ 8))) bs

step-lt :
    (crc b : ℕ)
    → crc < 2 ^ 16
    → b < 2 ^ 8
    → bit_xor (crc % 2 ^ 8 * 2 ^ 8 + b) (remainder (crc / 2 ^ 8)) < 2 ^ 16
step-lt crc b l m =
    bit_xor-lt (crc % 2 ^ 8 * 2 ^ 8 + b) (remainder (crc / 2 ^ 8)) (omega arith)
      (crctab-remainder (crc / 2 ^ 8) (omega arith)).1

partial_block-divide :
    (crc : ℕ) (bs : List ℕ)
    → crc < 2 ^ 16
    → Bytes bs
    → (partial_block crc bs ≡ ok (divide crc bs)) × (divide crc bs < 2 ^ 16)
unfolding partial_block divide
partial_block-divide crc [] l v = (refl, l)
partial_block-divide crc (b ∷ bs) l (cons m v) =
    let rest =
      partial_block-divide (bit_xor (crc % 2 ^ 8 * 2 ^ 8 + b) (remainder (crc / 2 ^ 8))) bs
        (step-lt crc b l m) v in
    (rw (crc_byte-remainder crc b l) rest.0, rest.1)

divide-append : (crc : ℕ) (xs ys : List ℕ) → divide crc (xs ++ ys) ≡ divide (divide crc xs) ys
unfolding divide
divide-append crc [] ys = refl
divide-append crc (x ∷ xs) ys =
    divide-append (bit_xor (crc % 2 ^ 8 * 2 ^ 8 + x) (remainder (crc / 2 ^ 8))) xs ys

-- The CRC of a block of bytes is computed without an access outside the table. It is the
-- remainder of the block followed by two zero bytes, divided byte by byte with the initial value
-- 0xffff, and has 16 bits.
pub crc_block-divide :
    (bs : List ℕ)
    → Bytes bs
    → (crc_block bs ≡ ok (divide 0xffff (bs ++ 0 ∷ 0 ∷ [])))
      × (divide 0xffff (bs ++ 0 ∷ 0 ∷ []) < 2 ^ 16)
unfolding crc_block divide
crc_block-divide bs v =
    let first = partial_block-divide 0xffff bs (omega arith) v in
    let crc = divide 0xffff bs in
    let one = step-lt crc 0 first.1 (omega arith) in
    let next = bit_xor (crc % 2 ^ 8 * 2 ^ 8 + 0) (remainder (crc / 2 ^ 8)) in
    rw (divide-append 0xffff bs (0 ∷ 0 ∷ [])) (
      rw (first.0, crc_byte-remainder crc 0 first.1, crc_byte-remainder next 0 one),
      step-lt next 0 one (omega arith),
    )
