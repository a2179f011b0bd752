-- ===== src/Crypt/Cbc.antt =====
-- AES-CBC of src/crypt.c: decryption undoes encryption.
use mathlib.Core.List.{append_assoc, append-nil}
use sapphire_os.Prelude.{
  ltb, leb, ltb→lt, lt→ltb, Bool-cases, bit_xor-undone, length, length-append, split_at-append,
  split_at-total, add16, Returns-bind, Returns-mono, Returns-ok, Returns, ok, returns, ℕ, zero, suc,
  ◌+◌, ◌-◌, ◌*◌, ◌≤◌, ◌<◌, ◌≡◌, refl, sym, ap, ap₂, ◌∙◌, inl, inr, true, List, [], ◌∷◌, ◌++◌, arith,
}
use sapphire_os.Crypt.{
  Aes, xor_block, copies, encrypt_loop, decrypt_loop, count_blocks, cbc_decrypt, cbc_encrypt,
}

-- what the code relies on: blocks of 16 bytes, and a decryption that undoes the encryption
pub record IsBlockCipher (aes : Aes) : Type 0 where
  pub size : (k m : List ℕ) → length m ≡ 16 → length (aes.encrypt k m) ≡ 16
  pub undone : (k m : List ℕ) → length m ≡ 16 → aes.decrypt k (aes.encrypt k m) ≡ m

pub length-xor_block :
    (n : ℕ) (a b : List ℕ) → length a ≡ n → length b ≡ n → length (xor_block a b) ≡ n
length-xor_block n [] b p q = p
length-xor_block n (x ∷ a) [] p q = absurd (omega (arith, p, q))
length-xor_block zero (x ∷ a) (y ∷ b) p q = absurd (omega (arith, p))
length-xor_block (suc n) (x ∷ a) (y ∷ b) p q =
    omega (arith, length-xor_block n a b (omega (arith, p)) (omega (arith, q)))

-- a block added to two times
xor_block-undone : (a b : List ℕ) → length a ≡ length b → xor_block (xor_block a b) a ≡ b
xor_block-undone [] [] p = refl
xor_block-undone [] (y ∷ b) p = absurd (omega (arith, p))
xor_block-undone (x ∷ a) [] p = absurd (omega (arith, p))
xor_block-undone (x ∷ a) (y ∷ b) p =
    ap₂ (λ z zs. z ∷ zs) (bit_xor-undone x y) (xor_block-undone a b (omega (arith, p)))

pub length-copies : (n b : ℕ) → length (copies n b) ≡ n
length-copies zero b = refl
length-copies (suc n) b = omega (arith, length-copies n b)

module _ (aes : Aes) (c : IsBlockCipher aes) (k : List ℕ) where
  -- what is encrypted is decrypted to the blocks that were read
  decrypt_loop-encrypt_loop :
      (blocks : ℕ) (e m rest : List ℕ)
      → length e ≡ 16
      → length m ≡ blocks * 16
      → Returns
          (λ o.
            (length o ≡ blocks * 16)
            × ((after : List ℕ) → decrypt_loop aes blocks k e (o ++ after) ≡ ok m))
          (encrypt_loop aes blocks k e (m ++ rest))
  unfolding encrypt_loop decrypt_loop
  decrypt_loop-encrypt_loop zero e [] rest p q = returns (refl, λ after. refl)
  decrypt_loop-encrypt_loop zero e (x ∷ m) rest p q = absurd (omega (arith, q))
  decrypt_loop-encrypt_loop (suc blocks) e m rest p q =
      let (block, left, is, size) = split_at-total 16 m (omega (arith, q)) in
      let o = aes.encrypt k (xor_block e block) in
      let mixed : length (xor_block e block) ≡ 16 = length-xor_block 16 e block p size in
      let whole : length o ≡ 16 = c.size k (xor_block e block) mixed in
      let size_left : length left ≡ blocks * 16 =
        omega (arith, q, size, ap length is, length-append block left) in
      rw (is, append_assoc block left rest, split_at-append 16 block (left ++ rest) size)
        (Returns-bind (decrypt_loop-encrypt_loop blocks o left rest whole size_left) λ os (n, back).
          returns (
            omega (arith, n, whole, length-append o os),
            λ after.
                rw
                  (
                    append_assoc o os after,
                    split_at-append 16 o (os ++ after) whole,
                    back after,
                    c.undone k (xor_block e block) mixed,
                    xor_block-undone e block (omega (arith, p, size)),
                  )
                  refl,
          ))

pub count_blocks-cases :
    (n : ℕ)
    → 0 < n
    → n ≤ 4080
    → (n ≤ count_blocks n * 16) × (count_blocks n * 16 < n + 16) × (0 < count_blocks n)
unfolding count_blocks
count_blocks-cases n l m = elim (Bool-cases (ltb 16 n)) [
  | inl e ↦ rw e (omega (arith, ltb→lt 16 n e), omega (arith, ltb→lt 16 n e), omega arith)
  | inr e ↦ rw e (ground arith, omega arith, omega arith)
]

module _ (aes : Aes) (c : IsBlockCipher aes) (k : List ℕ) where
  decrypts :
      (iv m rest : List ℕ) (blocks o_size : ℕ)
      → length iv ≡ 16
      → length m ≡ blocks * 16
      → 0 < blocks
      → blocks ≤ 255
      → blocks * 16 + 16 ≤ o_size
      → Returns
          (λ o. Returns (λ back. back ≡ m) (cbc_decrypt aes k iv o (length o) o_size))
          (encrypt_loop aes blocks k iv (m ++ rest))
  unfolding cbc_decrypt
  decrypts iv m rest blocks o_size i size p l room =
      Returns-mono (decrypt_loop-encrypt_loop aes c k blocks iv m rest i size) λ o (n, back).
        let counted : count_blocks (length o) ≡ blocks =
          let (at_least, below, some_) =
            count_blocks-cases (length o) (omega (arith, n)) (omega (arith, n)) in
          omega (arith, n, at_least, below) in
        let enough : leb (add16 (blocks * 16) 16) o_size ≡ true = ground arith in
        let positive : ltb 0 (length o) ≡ true = lt→ltb 0 (length o) (omega (arith, n)) in
        rw (positive, counted, enough)
          (Returns-ok (ap (decrypt_loop aes blocks k iv) (sym (append-nil o)) ∙ back []) refl)

  -- With a block cipher that decrypts what it encrypts, a message of 1 to 4080 bytes in a buffer that
  -- holds its last block, encrypted to an output that is large enough by `crypt_v_aes_cbc_128_encrypt`,
  -- is what `crypt_v_aes_cbc_128_decrypt` gives back, followed by zeros up to a full block.
  pub cbc_decrypt-cbc_encrypt :
      (iv message tail : List ℕ) (o_size : ℕ)
      → length iv ≡ 16
      → 0 < length message
      → length message ≤ 4080
      → count_blocks (length message) * 16 ≤ length message + length tail
      → count_blocks (length message) * 16 + 16 ≤ o_size
      → Returns
          (λ (o, padded).
            Returns
              (λ back.
                back ≡ message ++ copies (count_blocks (length message) * 16 - length message) 0)
              (cbc_decrypt aes k iv o (length o) o_size))
          (cbc_encrypt aes k iv (message ++ tail) (length message) o_size)
  unfolding cbc_encrypt
  cbc_decrypt-cbc_encrypt iv message tail o_size i p l room space =
      let n = length message in
      let blocks = count_blocks n in
      let (at_least, below, positive) = count_blocks-cases n p l in
      let enough : leb (add16 (blocks * 16) 16) o_size ≡ true = ground arith in
      let (old, rest, is, size) = split_at-total (blocks * 16 - n) tail (omega arith) in
      rw (lt→ltb 0 n p, enough)
        (elim (Bool-cases (ltb n (blocks * 16))) [
          | inl e ↦
              rw
                (
                  e,
                  split_at-append n message tail refl,
                  is,
                  split_at-append (blocks * 16 - n) old rest size,
                  ← append_assoc message (copies (blocks * 16 - n) 0) rest,
                )
                (Returns-bind
                  (decrypts iv (message ++ copies (blocks * 16 - n) 0) rest blocks o_size i
                    (omega (
                      arith,
                      length-append message (copies (blocks * 16 - n) 0),
                      length-copies (blocks * 16 - n) 0,
                    ))
                    positive (omega arith) space)
                  λ o back. returns back)
          | inr e ↦
              let full : blocks * 16 ≡ n = ground arith in
              let none_left : blocks * 16 - n ≡ 0 = omega (arith, full) in
              rw (e, none_left)
                (Returns-bind
                  (decrypts iv message tail blocks o_size i (sym full) positive (omega arith) space)
                  λ o back. returns (Returns-mono back λ b q. q ∙ sym (append-nil message)))
        ])
