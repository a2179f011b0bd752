-- ===== src/Crypt/Mac.antt =====
-- AES-XCBC-MAC-96 of src/crypt.c against RFC 3566.
use mathlib.Core.List.{append_assoc}
use Prim.Native.Nat.{bit_xor}
use sapphire_os.Prelude.{
  ltb, leb, ◌==◌, if◌then◌else◌, ltb→lt, lt→ltb, ==→eq, Bool-cases, bit_xor_comm, length,
  length-append, split_at, split_at-append, split_at-total, split_at-whole, repeat, sub16, ◌>>=◌,
  within, Returns-mono, Returns-value, Returns, ok, assert_failed, returns, ℕ, zero, suc, ◌+◌, ◌-◌,
  ◌*◌, ◌^◌, ◌≤◌, ◌<◌, ◌≡◌, refl, sym, ap, ap₂, ◌∙◌, ◌⊎◌, inl, inr, true, false, List, [], ◌∷◌, ◌++◌,
  arith,
}
use sapphire_os.Crypt.{
  Aes, xor_block, copies, count_blocks, subkey, chain_loop, last_block, xcbc_mac_96,
}
use sapphire_os.Crypt.Cbc.{IsBlockCipher, count_blocks-cases, length-xor_block, length-copies}

-- a message is full blocks and what is left
abbrev pub joined : List (List ℕ) → List ℕ
joined [] = []
joined (b ∷ bs) = b ++ joined bs

abbrev pub Full : List (List ℕ) → Type 0
Full [] = Unit
Full (b ∷ bs) = (length b ≡ 16) × Full bs

first_bytes :
    (tag : List ℕ)
    → length tag ≡ 16
    → Returns
        (λ auth. (length auth ≡ 12) × (rest : List ℕ) × (tag ≡ auth ++ rest))
        (within (split_at 12 tag) >>= λ (auth, rest). ok auth)
first_bytes tag e =
    let (auth, rest, is, size) = split_at-total 12 tag (omega (arith, e)) in
    rw (is, split_at-append 12 auth rest size) (returns (size, rest, refl))

le→leb : (a b : ℕ) → a ≤ b → leb a b ≡ true
le→leb a b l = ground arith

count_none : count_blocks 0 ≡ 1
unfolding count_blocks
count_none = refl

not_leb : (a b : ℕ) → b < a → leb a b ≡ false
not_leb a b l = ground arith

-- one round for each full block
rounds :
    (full left : ℕ)
    → left ≤ 16
    → (0 < left) ⊎ (full ≡ 0)
    → full * 16 + left ≤ 4080
    → count_blocks (full * 16 + left) - 1 ≡ full
rounds full left l some_left m = elim (Bool-cases (ltb 0 (full * 16 + left))) [
  | inl e ↦
      let (at_least, below, positive) = count_blocks-cases (full * 16 + left) (ltb→lt 0 _ e) m in
      ground (arith, at_least, below, positive)
  | inr e ↦
      let none_left : full * 16 + left ≡ 0 = ground arith in
      rw (none_left, count_none) (omega (arith, none_left))
]

-- the bytes of a block that the RFC makes of its constants, and its exclusive or
abbrev pub filled : ℕ → List ℕ
filled v = repeat 16 v

unfoldable pub rfc_xor : List ℕ → List ℕ → List ℕ
rfc_xor [] two = []
rfc_xor (a ∷ one) [] = []
rfc_xor (a ∷ one) (b ∷ two) = bit_xor a b ∷ rfc_xor one two

xor_block-rfc_xor : (one two : List ℕ) → xor_block one two ≡ rfc_xor one two
unfolding rfc_xor
xor_block-rfc_xor [] two = refl
xor_block-rfc_xor (a ∷ one) [] = refl
xor_block-rfc_xor (a ∷ one) (b ∷ two) = ap (λ l. bit_xor a b ∷ l) (xor_block-rfc_xor one two)

rfc_xor_comm : (one two : List ℕ) → rfc_xor one two ≡ rfc_xor two one
unfolding rfc_xor
rfc_xor_comm [] [] = refl
rfc_xor_comm [] (b ∷ two) = refl
rfc_xor_comm (a ∷ one) [] = refl
rfc_xor_comm (a ∷ one) (b ∷ two) = ap₂ (λ c l. c ∷ l) (bit_xor_comm a b) (rfc_xor_comm one two)

copies-repeat : (n v : ℕ) → copies n v ≡ repeat n v
copies-repeat zero v = refl
copies-repeat (suc n) v = ap (λ l. v ∷ l) (copies-repeat n v)

module _ (aes : Aes) where
  -- step 1 of the RFC: K1, K2 and K3 are the encryptions of blocks of the bytes 1, 2 and 3
  abbrev pub key_one : List ℕ → List ℕ
  key_one k = aes.encrypt k (filled 1)

  abbrev pub key_two : List ℕ → List ℕ
  key_two k = aes.encrypt k (filled 2)

  abbrev pub key_three : List ℕ → List ℕ
  key_three k = aes.encrypt k (filled 3)

  -- steps 2 and 3: from a block of zeroes on, each full block is added and encrypted with K1
  abbrev pub rfc_chain : List ℕ → List ℕ → List (List ℕ) → List ℕ
  rfc_chain k e [] = e
  rfc_chain k e (b ∷ bs) = rfc_chain k (aes.encrypt (key_one k) (rfc_xor b e)) bs

  -- step 4: the last block with K2 where it is full, and with K3 where a bit 1 and zeroes fill it
  abbrev pub rfc_last : List ℕ → List ℕ → List ℕ → List ℕ
  rfc_last k e last =
      if length last == 16
      then aes.encrypt (key_one k) (rfc_xor (rfc_xor last e) (key_two k))
      else aes.encrypt (key_one k)
          (rfc_xor (rfc_xor (last ++ 128 ∷ repeat (15 - length last) 0) e) (key_three k))

  -- the 128 bits of the tag of RFC 3566
  abbrev pub rfc_tag : List ℕ → List (List ℕ) → List ℕ → List ℕ
  rfc_tag k blocks last = rfc_last k (rfc_chain k (filled 0) blocks) last

  -- the chain as the code writes it
  abbrev pub chained : List ℕ → List ℕ → List (List ℕ) → List ℕ
  chained k1 e [] = e
  chained k1 e (b ∷ bs) = chained k1 (aes.encrypt k1 (xor_block e b)) bs

  -- the last block as the code writes it
  abbrev pub finished : List ℕ → List ℕ → List ℕ → List ℕ
  finished k e last =
      if length last == 16
      then aes.encrypt (subkey aes 1 k) (xor_block (xor_block e last) (subkey aes 2 k))
      else aes.encrypt (subkey aes 1 k)
          (xor_block (xor_block e (last ++ 0x80 ∷ copies (15 - length last) 0)) (subkey aes 3 k))

  chained-rfc_chain :
      (k e : List ℕ) (blocks : List (List ℕ))
      → chained (subkey aes 1 k) e blocks ≡ rfc_chain k e blocks
  chained-rfc_chain k e [] = refl
  chained-rfc_chain k e (b ∷ bs) =
      let swapped = ap (aes.encrypt (key_one k)) (xor_block-rfc_xor e b ∙ rfc_xor_comm e b) in
      chained-rfc_chain k (aes.encrypt (key_one k) (xor_block e b)) bs
      ∙ ap (λ c. rfc_chain k c bs) swapped

  finished-rfc_last : (k e last : List ℕ) → finished k e last ≡ rfc_last k e last
  finished-rfc_last k e last =
      let padded = last ++ 128 ∷ repeat (15 - length last) 0 in
      let zeroes = ap (λ l. last ++ 128 ∷ l) (copies-repeat (15 - length last) 0) in
      rw
        (
          zeroes,
          xor_block-rfc_xor (xor_block e last) (subkey aes 2 k),
          xor_block-rfc_xor e last,
          rfc_xor_comm e last,
          xor_block-rfc_xor (xor_block e padded) (subkey aes 3 k),
          xor_block-rfc_xor e padded,
          rfc_xor_comm e padded,
        )
        refl

  tag-rfc_tag :
      (k : List ℕ) (blocks : List (List ℕ)) (last : List ℕ)
      → finished k (chained (subkey aes 1 k) (copies 16 0) blocks) last ≡ rfc_tag k blocks last
  tag-rfc_tag k blocks last =
      finished-rfc_last k (chained (subkey aes 1 k) (copies 16 0) blocks) last
      ∙ ap (λ e. rfc_last k e last) (chained-rfc_chain k (copies 16 0) blocks)

  chain_loop-chained :
      (k1 e : List ℕ) (blocks : List (List ℕ)) (last : List ℕ) (n : ℕ)
      → Full blocks
      → n ≡ length blocks * 16 + length last
      → n < 2 ^ 16
      → chain_loop aes (length blocks) k1 e (joined blocks ++ last) n
        ≡ ok (chained k1 e blocks, (last, length last))
  unfolding chain_loop
  chain_loop-chained k1 e [] last n f is l = ap (λ j. ok (e, (last, j))) (is ∙ omega arith)
  chain_loop-chained k1 e (b ∷ bs) last n f is l =
      let rest : sub16 n 16 ≡ length bs * 16 + length last = omega (arith, is) in
      rw (append_assoc b (joined bs) last, split_at-append 16 b (joined bs ++ last) f.0)
        (chain_loop-chained k1 (aes.encrypt k1 (xor_block e b)) bs last (sub16 n 16) f.1 rest
          (omega arith))

  last_block-finished :
      (k e last : List ℕ) → last_block aes k e last (length last) ≡ ok (finished k e last)
  unfolding last_block
  last_block-finished k e last = rw (split_at-whole last) refl

  module _ (c : IsBlockCipher aes) (k : List ℕ) where
    length-finished :
        (e last : List ℕ) → length e ≡ 16 → length last ≤ 16 → length (finished k e last) ≡ 16
    length-finished e last p q = elim (Bool-cases (length last == 16)) [
      | inl t ↦ rw t (
          c.size (subkey aes 1 k) (xor_block (xor_block e last) (subkey aes 2 k)) (
            length-xor_block 16 (xor_block e last) (subkey aes 2 k)
              (length-xor_block 16 e last p (==→eq (length last) 16 t))
              (c.size k (copies 16 2) refl)))
      | inr t ↦
          let padded = last ++ 0x80 ∷ copies (15 - length last) 0 in
          let whole : length padded ≡ 16 = ground (
            arith,
            length-append last (0x80 ∷ copies (15 - length last) 0),
            length-copies (15 - length last) 0,
          ) in
          rw t (
            c.size (subkey aes 1 k) (xor_block (xor_block e padded) (subkey aes 3 k)) (
              length-xor_block 16 (xor_block e padded) (subkey aes 3 k)
                (length-xor_block 16 e padded p whole) (c.size k (copies 16 3) refl)))
    ]

    length-chained :
        (k1 e : List ℕ) (blocks : List (List ℕ))
        → length e ≡ 16
        → Full blocks
        → length (chained k1 e blocks) ≡ 16
    length-chained k1 e [] p f = p
    length-chained k1 e (b ∷ bs) p f =
        length-chained k1 (aes.encrypt k1 (xor_block e b)) bs
          (c.size k1 (xor_block e b) (length-xor_block 16 e b p f.0)) f.1

    -- The tag of a message of at most 4080 bytes, cut into full blocks and a last block which is empty for
    -- the empty message only, is computed without a failed ASSERT. It is the first 12 bytes of the tag
    -- of RFC 3566.
    pub xcbc_mac_96-rfc_tag :
        (blocks : List (List ℕ)) (last : List ℕ)
        → Full blocks
        → length last ≤ 16
        → (0 < length last) ⊎ (length blocks ≡ 0)
        → length blocks * 16 + length last ≤ 4080
        → Returns
            (λ auth. (length auth ≡ 12) × (rest : List ℕ) × (rfc_tag k blocks last ≡ auth ++ rest))
            (xcbc_mac_96 aes k (joined blocks ++ last) (length blocks * 16 + length last))
    unfolding xcbc_mac_96 last_block
    xcbc_mac_96-rfc_tag blocks last f l some_left m =
        let n = length blocks * 16 + length last in
        let e = chained (subkey aes 1 k) (copies 16 0) blocks in
        let whole =
          length-finished e last (length-chained (subkey aes 1 k) (copies 16 0) blocks refl f) l in
        rw
          (
            rounds (length blocks) (length last) l some_left m,
            chain_loop-chained (subkey aes 1 k) (copies 16 0) blocks last n f refl (omega arith),
            le→leb (length last) 16 l,
            last_block-finished k e last,
            tag-rfc_tag k blocks last,
          )
          (first_bytes (rfc_tag k blocks last)
            (ap length (sym (tag-rfc_tag k blocks last)) ∙ whole))

-- the rounds for a longer message, counted in eight bits, leave more than a block
rounds-short : (n : ℕ) → 4080 < n → n < 2 ^ 16 → (count_blocks n - 1) * 16 + 16 < n
unfolding count_blocks
rounds-short n l m = rw (lt→ltb 16 n (omega arith)) (omega arith)

module _ (aes : Aes) where
  chain_loop-left :
      (blocks : ℕ) (k1 e m : List ℕ) (n : ℕ)
      → blocks * 16 ≤ length m
      → blocks * 16 ≤ n
      → n < 2 ^ 16
      → Returns (λ (e', left). left.1 ≡ n - blocks * 16) (chain_loop aes blocks k1 e m n)
  unfolding chain_loop
  chain_loop-left zero k1 e m n p q l = returns (omega arith)
  chain_loop-left (suc blocks) k1 e m n p q l =
      let (block, rest, is, size) = split_at-total 16 m (omega arith) in
      let counted = length-append block rest in
      let total = ap length is in
      rw (is, split_at-append 16 block rest size)
        (Returns-mono
          (chain_loop-left blocks k1 (aes.encrypt k1 (xor_block e block)) rest (sub16 n 16)
            (omega (arith, size, counted, total)) (omega arith) (omega arith))
          λ out left. omega (arith, left))

  -- A message of more than 4080 bytes fails the ASSERT of `crypt_v_aes_xcbc_mac_96`: its count of blocks
  -- has eight bits.
  pub xcbc_mac_96-long :
      (k m : List ℕ)
      → 4080 < length m
      → length m < 2 ^ 16
      → xcbc_mac_96 aes k m (length m) ≡ assert_failed
  unfolding xcbc_mac_96
  xcbc_mac_96-long k m l b =
      let short = rounds-short (length m) l b in
      let (out, is, left) = Returns-value (
        chain_loop-left (count_blocks (length m) - 1) (subkey aes 1 k) (copies 16 0) m (length m)
          (omega arith) (omega arith) b) in
      rw (is, not_leb out.1.1 16 (omega arith)) refl
