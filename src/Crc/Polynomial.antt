-- ===== src/Crc/Polynomial.antt =====
-- The table of src/crc.c holds remainders modulo the polynomial x^16 + x^12 + x^5 + 1.
use Prim.Native.Nat.{bit_xor}
use sapphire_os.Prelude.{
  ltb, ◌==◌, if◌then◌else◌, ==→eq, Bool-cases, get_elem?, ℕ, zero, suc, ◌+◌, ◌-◌, ◌*◌, ◌^◌, ◌≤◌,
  ◌<◌, ◌≡◌, refl, ap, inl, inr, Bool, true, false, ◌&&◌, Option, none, some, arith,
}
use sapphire_os.Crc.{crctab}

-- a remainder times x
unfoldable pub times_x : ℕ → ℕ
times_x r = if ltb r (2 ^ 15) then 2 * r else bit_xor (2 * r - 2 ^ 16) 0x1021

-- a byte times x^16
unfoldable pub remainder : ℕ → ℕ
unfolding times_x
remainder byte =
    times_x (times_x (times_x (times_x (times_x (times_x (times_x (times_x (byte * 2 ^ 8))))))))

entry_is : Option ℕ → ℕ → Bool
entry_is none r = false
entry_is (some e) r = (e == r) && ltb e (2 ^ 16)

-- a test that holds for the `n` numbers from `i` on
holds_from : ℕ → ℕ → (ℕ → Bool) → Bool
holds_from zero i test = true
holds_from (suc n) i test = test i && holds_from n (i + 1) test

holds_from-at :
    (test : ℕ → Bool) (n i j : ℕ) → holds_from n i test ≡ true → i ≤ j → j < i + n → test j ≡ true
unfolding holds_from
holds_from-at test zero i j h l m = absurd (omega arith)
holds_from-at test (suc n) i j h l m = elim (Bool-cases (i == j)) [
  | inl e ↦ let same : i ≡ j = ==→eq i j e in rw (← same) (ground arith)
  | inr e ↦ holds_from-at test n (i + 1) j (ground arith) (ground arith) (omega arith)
]

entry_matches : ℕ → Bool
entry_matches i = entry_is (get_elem? crctab i) (remainder i)

all_match : holds_from 256 0 entry_matches ≡ true
unfolding holds_from entry_matches entry_is crctab remainder times_x
all_match = refl

entry-of : (e : Option ℕ) (r : ℕ) → entry_is e r ≡ true → (e ≡ some r) × (r < 2 ^ 16)
unfolding entry_is
entry-of none r h = cc
entry-of (some e) r h = let same : e ≡ r = ground arith in (ap some same, ground arith)

-- Each of the 256 entries is the remainder, by eight steps bit by bit, of its number times x^16, and
-- has 16 bits.
pub crctab-remainder :
    (i : ℕ) → i < 256 → (get_elem? crctab i ≡ some (remainder i)) × (remainder i < 2 ^ 16)
unfolding entry_matches
crctab-remainder i l =
    entry-of (get_elem? crctab i) (remainder i)
      (holds_from-at entry_matches 256 0 i all_match (omega arith) (omega arith))
