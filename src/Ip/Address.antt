-- ===== src/Ip/Address.antt =====
-- Addresses of src/ip.c as 32-bit numbers.
use sapphire_os.Prelude.{
  ltb, ltb→lt, Bool-cases, sub32, ℕ, ◌/◌, ◌%◌, ◌^◌, ◌≤◌, ◌<◌, ◌≡◌, ◌⊎◌, inl, inr, arith,
}
use sapphire_os.Ip.{to_int, from_int}

-- A number turned into an address and back is itself where bit 15 is clear, and less by 2^16 modulo
-- 2^32 where it is set.
pub to_int-from_int :
    (i : ℕ)
    → i < 2 ^ 32
    → (i / 2 ^ 8 % 2 ^ 8 < 128) × (to_int (from_int i) ≡ i)
      ⊎ (128 ≤ i / 2 ^ 8 % 2 ^ 8) × (to_int (from_int i) ≡ sub32 i (2 ^ 16))
unfolding to_int from_int
to_int-from_int i l = elim (Bool-cases (ltb (i / 2 ^ 8 % 2 ^ 8) 128)) [
  | inl e ↦ inl (ltb→lt _ _ e, rw e (omega arith))
  | inr e ↦ inr (ground arith, rw e (omega arith))
]
