-- ===== src/Crypt/Tests.antt =====
-- The simplest block cipher, which changes nothing, and messages of several lengths.
use sapphire_os.Prelude.{
  length, Returns, ℕ, ◌+◌, ◌-◌, ◌*◌, ◌≡◌, refl, inl, List, [], ◌∷◌, ◌++◌, arith,
}
use sapphire_os.Crypt.{Aes, copies, count_blocks, xcbc_mac_96, cbc_encrypt, cbc_decrypt}
use sapphire_os.Crypt.Cbc.{IsBlockCipher, cbc_decrypt-cbc_encrypt}
use sapphire_os.Crypt.Mac.{joined, rfc_tag, xcbc_mac_96-rfc_tag}

abbrev plain : Aes
plain = record { encrypt = λ k m. m; decrypt = λ k m. m }

plain-IsBlockCipher : IsBlockCipher plain
plain-IsBlockCipher = record { size = λ k m e. e; undone = λ k m e. refl }

abbrev key : List ℕ
key = copies 16 7

abbrev hello : List ℕ
hello = 104 ∷ 101 ∷ 108 ∷ 108 ∷ 111 ∷ []

cbc_decrypt-cbc_encrypt_example :
    Returns
      (λ (o, padded).
        Returns
          (λ back. back ≡ hello ++ copies (count_blocks 5 * 16 - 5) 0)
          (cbc_decrypt plain key key o (length o) 64))
      (cbc_encrypt plain key key (hello ++ copies 20 9) 5 64)
unfolding count_blocks
cbc_decrypt-cbc_encrypt_example =
    cbc_decrypt-cbc_encrypt plain plain-IsBlockCipher key key hello (copies 20 9) 64 refl
      (omega arith) (omega arith) (omega arith) (omega arith)

xcbc_mac_96-rfc_tag_example :
    Returns
      (λ auth.
        (length auth ≡ 12)
        × (rest : List ℕ) × (rfc_tag plain key (copies 16 1 ∷ []) hello ≡ auth ++ rest))
      (xcbc_mac_96 plain key (joined (copies 16 1 ∷ []) ++ hello) (1 * 16 + 5))
xcbc_mac_96-rfc_tag_example =
    xcbc_mac_96-rfc_tag plain plain-IsBlockCipher key (copies 16 1 ∷ []) hello (refl, tt)
      (omega arith) (inl (omega arith)) (omega arith)

abbrev long : List ℕ
long = copies 4081 0
