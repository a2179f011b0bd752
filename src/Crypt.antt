-- ===== src/Crypt.antt =====
-- src/crypt.c: the message authentication code AES-XCBC-MAC-96 and the cipher AES-CBC, both over the
-- block cipher of src/aes_128rfa1.c, which the radio does and which is a parameter.
-- A buffer is the list of its bytes. Reading past its end is `out_of_bounds`.
pub mod Cbc
pub mod Mac
pub mod Cut
mod Tests
use Prim.Native.Nat.{bit_xor}
use sapphire_os.Prelude.{
  ltb, leb, ◌==◌, if◌then◌else◌, split_at, add8, add16, sub16, ◌>>=◌, ◌>>◌, assert, within, Run, ok,
  ℕ, zero, suc, ◌-◌, ◌*◌, ◌/◌, List, [], ◌∷◌, ◌++◌,
}

-- `aes_v_encrypt` and `aes_v_decrypt`: the key, then the block
pub record Aes : Type 0 where
  pub encrypt : List ℕ → List ℕ → List ℕ
  pub decrypt : List ℕ → List ℕ → List ℕ

-- `xor_block`
abbrev pub xor_block : List ℕ → List ℕ → List ℕ
xor_block [] two = []
xor_block (a ∷ one) [] = []
xor_block (a ∷ one) (b ∷ two) = bit_xor a b ∷ xor_block one two

-- `memset`
abbrev pub copies : ℕ → ℕ → List ℕ
copies zero b = []
copies (suc n) b = b ∷ copies n b

-- the count of blocks of `n` bytes, a `uint8_t`
unfoldable pub count_blocks : ℕ → ℕ
count_blocks n = if ltb 16 n then add8 1 ((n - 1) / 16) else 1

module _ (aes : Aes) where
  open aes use {encrypt, decrypt}

  -- steps 1 of the code: the three keys
  abbrev pub subkey : ℕ → List ℕ → List ℕ
  subkey v k = encrypt k (copies 16 v)

  -- the loop over all blocks but the last; what is left of the message and its length
  unfoldable pub chain_loop : ℕ → List ℕ → List ℕ → List ℕ → ℕ → Run (List ℕ × (List ℕ × ℕ))
  chain_loop zero k1 e m n = ok (e, (m, n))
  chain_loop (suc blocks) k1 e m n = within (split_at 16 m) >>= λ (block, rest).
      chain_loop blocks k1 (encrypt k1 (xor_block e block)) rest (sub16 n 16)

  -- the last block, padded where it is not full
  unfoldable pub last_block : List ℕ → List ℕ → List ℕ → ℕ → Run (List ℕ)
  last_block k e m n =
      let k1 = subkey 1 k in
      within (split_at n m) >>= λ (block, rest). ok (
        if n == 16
        then encrypt k1 (xor_block (xor_block e block) (subkey 2 k))
        else encrypt k1 (xor_block (xor_block e (block ++ 0x80 ∷ copies (15 - n) 0)) (subkey 3 k)))

  -- `crypt_v_aes_xcbc_mac_96`
  unfoldable pub xcbc_mac_96 : List ℕ → List ℕ → ℕ → Run (List ℕ)
  xcbc_mac_96 k m n = do
    (e, left) ← chain_loop (count_blocks n - 1) (subkey 1 k) (copies 16 0) m n
    assert (leb left.1 16)
    tag ← last_block k e left.0 left.1
    (auth, rest) ← within (split_at 12 tag)
    ok auth

  -- the loop of `crypt_v_aes_cbc_128_encrypt`; the bytes that it writes to its output
  unfoldable pub encrypt_loop : ℕ → List ℕ → List ℕ → List ℕ → Run (List ℕ)
  encrypt_loop zero k e m = ok []
  encrypt_loop (suc blocks) k e m = within (split_at 16 m) >>= λ (block, rest).
      let o = encrypt k (xor_block e block) in encrypt_loop blocks k o rest >>= λ os. ok (o ++ os)

  -- `crypt_v_aes_cbc_128_encrypt`: the output, and the message's buffer, whose end it pads
  unfoldable pub cbc_encrypt : List ℕ → List ℕ → List ℕ → ℕ → ℕ → Run (List ℕ × List ℕ)
  cbc_encrypt k iv m n o_size = do
    assert (ltb 0 n)
    let blocks = count_blocks n
    assert (leb (add16 (blocks * 16) 16) o_size)
    padded ←
        (if ltb n (blocks * 16)
          then (within (split_at n m) >>= λ (message, tail).
              within (split_at (blocks * 16 - n) tail) >>= λ (old, rest).
              ok (message ++ (copies (blocks * 16 - n) 0 ++ rest)))
          else ok m)
    o ← encrypt_loop blocks k iv padded
    ok (o, padded)

  -- the loop of `crypt_v_aes_cbc_128_decrypt`
  unfoldable pub decrypt_loop : ℕ → List ℕ → List ℕ → List ℕ → Run (List ℕ)
  decrypt_loop zero k e m = ok []
  decrypt_loop (suc blocks) k e m = within (split_at 16 m) >>= λ (block, rest).
      decrypt_loop blocks k block rest >>= λ os. ok (xor_block (decrypt k block) e ++ os)

  -- `crypt_v_aes_cbc_128_decrypt`
  unfoldable pub cbc_decrypt : List ℕ → List ℕ → List ℕ → ℕ → ℕ → Run (List ℕ)
  cbc_decrypt k iv m n o_size = do
    assert (ltb 0 n)
    let blocks = count_blocks n
    assert (leb (add16 (blocks * 16) 16) o_size)
    decrypt_loop blocks k iv m
