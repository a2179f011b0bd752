-- ===== src/Config/Blocks.antt =====
-- What writing and erasing a block does to all the blocks: `write_block` and `erase_block` of
-- src/config.c.
use mathlib.Core.Path.{subst}
use sapphire_os.Prelude.{
  ◌==◌, lt→ltb, ==→eq, Bool-cases, length, add16, Returns, returns, ℕ, zero, suc, ◌+◌, ◌*◌, ◌≤◌,
  ◌<◌, ◌≡◌, refl, ap₂, ◌∙◌, ◌≢◌, ◌⊎◌, inl, inr, true, false, List, [], ◌∷◌, arith,
}
use sapphire_os.Config.{
  Eeprom, Config, CfgIndex, no_entry, block_address, field, total_blocks, empty_block, index_size,
  write_byte, write_bytes, read_bytes,
}
use sapphire_os.Config.Store.{write_block, erase_block, remove_entries}
use sapphire_os.Config.Cells.{
  IsReliable, block, field-id, read-write_byte, read-write_bytes, read_bytes-eq,
  read_bytes-write_bytes,
}

remove_entries-above :
    (n b k : ℕ) (index : ℕ → CfgIndex) → n ≤ k → remove_entries n b index k ≡ index k
unfolding remove_entries
remove_entries-above zero b k index l = refl
remove_entries-above (suc n) b k index l =
    let rest = remove_entries-above n b k index (omega arith) in
    let other : (n == k) ≡ false = ground arith in
    elim (Bool-cases ((remove_entries n b index n).block_number == b)) [
      | inl hit ↦ rw (hit, other) rest
      | inr miss ↦ rw miss rest
    ]

-- the entries of the index for a block are removed, and the others stay
pub remove_entries-cases :
    (n b k : ℕ) (index : ℕ → CfgIndex)
    → k < n
    → (remove_entries n b index k ≡ no_entry)
      ⊎ ((remove_entries n b index k ≡ index k) × ((index k).block_number ≢ b))
unfolding remove_entries
remove_entries-cases zero b k index l = absurd (omega arith)
remove_entries-cases (suc n) b k index l =
    let later = remove_entries n b index in
    elim (Bool-cases ((later n).block_number == b)) [
      | inl hit ↦ elim (Bool-cases (n == k)) [
        | inl here ↦ inl (rw (hit, here) refl)
        | inr there ↦ rw (hit, there) (remove_entries-cases n b k index (ground arith))
      ]
      | inr miss ↦ elim (Bool-cases (n == k)) [
        | inr there ↦ rw miss (remove_entries-cases n b k index (ground arith))
        | inl here ↦
            let same : n ≡ k = ==→eq n k here in
            let kept = remove_entries-above n b k index (omega (arith, same)) in
            let number : ((later k).block_number == b) ≡ false = rw (← same) miss in
            rw miss (inr (kept, λ e. ground (arith, number, kept, e)))
      ]
    ]

same : (a : ℕ) → (a == a) ≡ true
same a = ground arith

differs : (a c : ℕ) → a ≢ c → (a == c) ≡ false
differs a c other = ground arith

outside : (a c n : ℕ) → n ≡ 11 → (c < a) ⊎ (a + 12 ≤ c) → (c < a + 1) ⊎ (a + 1 + n ≤ c)
outside a c n e (inl l) = inl (omega arith)
outside a c n e (inr l) = inr (omega (arith, e))

apart :
    (j b c : ℕ)
    → j ≢ b
    → j * 12 + 16 ≤ c
    → c < j * 12 + 16 + 12
    → (c < b * 12 + 16) ⊎ (b * 12 + 16 + 12 ≤ c)
apart j b c other p q = ground arith

module _ {E : Type 0} (d : Eeprom E) where
  -- all blocks but one stay as they are
  abbrev pub Others : ℕ → E → E → Type 0
  Others b e f = (j : ℕ) → j < total_blocks → j ≢ b → block d f j ≡ block d e j

  module _ (r : IsReliable d) where
    pub write_block-written :
        (b : ℕ) (bytes : List ℕ) (e : E)
        → b < total_blocks
        → length bytes ≡ 12
        → Returns (λ f. (block d f b ≡ bytes) × Others b e f) (write_block d b bytes e)
    unfolding write_block block_address read_bytes
    write_block-written b [] e l size = absurd (omega (arith, size))
    write_block-written b (x ∷ xs) e l size =
        let eleven : length xs ≡ 11 = omega (arith, size) in
        let a = b * 12 + 16 in
        let one = write_bytes d (a + 1) xs e in
        let two = write_byte d a x one in
        let next : add16 a 1 ≡ a + 1 = omega arith in
        let rest : read_bytes d (add16 a 1) 11 two ≡ read_bytes d (a + 1) 11 one = rw next (
          read_bytes-eq d (a + 1) 11 two one (omega arith) λ c p q.
            read-write_byte d r c a x one (omega arith) (omega arith)
            ∙ rw (differs a c (omega arith)) refl) in
        let whole : block d two b ≡ x ∷ xs =
          ap₂ (λ y ys. y ∷ ys)
            (read-write_byte d r a a x one (omega arith) (omega arith) ∙ rw (same a) refl)
            (rest
              ∙ subst (λ n. read_bytes d (a + 1) n one ≡ xs) eleven
                  (read_bytes-write_bytes d r (a + 1) xs e (omega (arith, eleven)))) in
        rw (lt→ltb b total_blocks l) (
          returns (
            whole,
            λ j m other. read_bytes-eq d (j * 12 + 16) 12 two e (omega arith) λ c p q.
                read-write_byte d r c a x one (omega arith) (omega arith)
                ∙ rw (differs a c (omega arith)) refl
                ∙ read-write_bytes d r c (a + 1) xs e (omega arith) (omega (arith, eleven))
                    (outside a c (length xs) eleven (apart j b c other p q)),
          ))

    pub erase_block-erased :
        (b : ℕ) (s : Config E)
        → b < total_blocks
        → Returns
            (λ t.
              (field 0 (block d t.eeprom b) ≡ empty_block)
              × Others b s.eeprom t.eeprom
              × (t ≡ record s {
                eeprom = t.eeprom;
                cfg_index = remove_entries index_size b s.cfg_index;
              }))
            (erase_block d b s)
    unfolding erase_block block_address
    erase_block-erased b s l =
        let a = b * 12 + 16 in
        rw (lt→ltb b total_blocks l) (
          returns (
            field-id d b (write_byte d a empty_block s.eeprom)
                ∙ read-write_byte d r a a empty_block s.eeprom (omega arith) (omega arith)
                ∙ rw (same a) refl,
            λ j m other.
                read_bytes-eq d (j * 12 + 16) 12 (write_byte d a empty_block s.eeprom) s.eeprom
                  (omega arith)
                  λ c p q.
                    read-write_byte d r c a empty_block s.eeprom (omega arith) (omega arith)
                    ∙ rw (differs a c (omega arith)) refl,
            refl,
          ))
