-- ===== src/Config/Cells.antt =====
-- An EEPROM that keeps what is programmed, as the blocks of parameters that it holds: src/eeprom.c,
-- and the functions of src/config.c that read or write one block.
use sapphire_os.Prelude.{
  ◌==◌, if◌then◌else◌, lt→ltb, ==→eq, Bool-cases, length, add16, ok, ℕ, zero, suc, ◌+◌, ◌*◌, ◌≤◌,
  ◌<◌, ◌≡◌, refl, sym, ap₂, ◌∙◌, ◌⊎◌, inl, inr, true, false, List, [], ◌∷◌, arith,
}
use sapphire_os.Config.{
  Eeprom, block_address, field, ee_array_size, total_blocks, write_byte, write_bytes, read_bytes,
}
use sapphire_os.Config.Store.{read_block_id, read_block_number, read_block}

-- what the data sheet promises of a working EEPROM: a cell that is programmed has its new value, and
-- the others keep theirs
pub record IsReliable {E : Type 0} (d : Eeprom E) : Type 0 where
  pub read_program :
      (a b v : ℕ) (e : E)
      → a < ee_array_size
      → b < ee_array_size
      → d.read a (d.program b v e) ≡ (if b == a then v else d.read a e)

module _ {E : Type 0} (d : Eeprom E) where
  pub read_bytes-eq :
      (a n : ℕ) (e f : E)
      → a + n ≤ ee_array_size
      → ((c : ℕ) → a ≤ c → c < a + n → d.read c e ≡ d.read c f)
      → read_bytes d a n e ≡ read_bytes d a n f
  unfolding read_bytes
  read_bytes-eq a zero e f l h = refl
  read_bytes-eq a (suc n) e f l h =
      let next : add16 a 1 ≡ a + 1 = omega arith in
      ap₂ (λ x xs. x ∷ xs) (h a (omega arith) (omega arith))
        (rw next
          (read_bytes-eq (a + 1) n e f (omega arith) λ c p q. h c (omega arith) (omega arith)))

  -- the block with a number
  abbrev pub block : E → ℕ → List ℕ
  block e b = read_bytes d (b * 12 + 16) 12 e

  pub field-id : (b : ℕ) (e : E) → field 0 (block e b) ≡ d.read (b * 12 + 16) e
  unfolding read_bytes
  field-id b e = refl

  pub field-number :
      (b : ℕ) (e : E) → b < total_blocks → field 2 (block e b) ≡ d.read (b * 12 + 16 + 2) e
  unfolding read_bytes
  field-number b e l =
      let next : add16 (add16 (b * 12 + 16) 1) 1 ≡ b * 12 + 16 + 2 = omega arith in rw next refl

  block_address_inside : (b : ℕ) → b < total_blocks → block_address b ≡ ok (b * 12 + 16)
  unfolding block_address
  block_address_inside b l = rw (lt→ltb b total_blocks l) refl

  pub read_block_id-field :
      (b : ℕ) (e : E) → b < total_blocks → read_block_id d b e ≡ ok (field 0 (block e b))
  unfolding read_block_id
  read_block_id-field b e l = rw (block_address_inside b l, field-id b e) refl

  pub read_block_number-field :
      (b : ℕ) (e : E) → b < total_blocks → read_block_number d b e ≡ ok (field 2 (block e b))
  unfolding read_block_number
  read_block_number-field b e l = rw (block_address_inside b l, field-number b e l) refl

  pub read_block-block : (b : ℕ) (e : E) → b < total_blocks → read_block d b e ≡ ok (block e b)
  unfolding read_block
  read_block-block b e l = rw (block_address_inside b l) refl

  module _ (r : IsReliable d) where
    pub read-write_byte :
        (a b v : ℕ) (e : E)
        → a < ee_array_size
        → b < ee_array_size
        → d.read a (write_byte d b v e) ≡ (if b == a then v else d.read a e)
    unfolding write_byte
    read-write_byte a b v e l m = elim (Bool-cases (v == d.read b e)) [
      | inr differs ↦ rw differs (r.read_program a b v e l m)
      | inl equal ↦ rw equal (elim (Bool-cases (b == a)) [
        | inr other ↦ rw other refl
        | inl same ↦ rw (same, ← ==→eq b a same) (sym (==→eq v (d.read b e) equal))
      ])
    ]

    pub read-write_bytes :
        (a b : ℕ) (bs : List ℕ) (e : E)
        → a < ee_array_size
        → b + length bs ≤ ee_array_size
        → (a < b) ⊎ (b + length bs ≤ a)
        → d.read a (write_bytes d b bs e) ≡ d.read a e
    unfolding write_bytes
    read-write_bytes a b [] e l m out = refl
    read-write_bytes a b (x ∷ bs) e l m out =
        let next : add16 b 1 ≡ b + 1 = omega arith in
        let other : (b == a) ≡ false = ground arith in
        rw next (read-write_bytes a (b + 1) bs (write_byte d b x e) l (omega arith) (ground arith))
        ∙ read-write_byte a b x e l (omega arith)
        ∙ rw other refl

    pub read_bytes-write_bytes :
        (b : ℕ) (bs : List ℕ) (e : E)
        → b + length bs ≤ ee_array_size
        → read_bytes d b (length bs) (write_bytes d b bs e) ≡ bs
    unfolding read_bytes write_bytes
    read_bytes-write_bytes b [] e m = refl
    read_bytes-write_bytes b (x ∷ bs) e m =
        let next : add16 b 1 ≡ b + 1 = omega arith in
        let same : (b == b) ≡ true = ground arith in
        ap₂ (λ y ys. y ∷ ys)
          (rw next (
              read-write_bytes b (b + 1) bs (write_byte d b x e) (omega arith) (omega arith)
                (inl (omega arith)))
            ∙ read-write_byte b b x e (omega arith) (omega arith)
            ∙ rw same refl)
          (rw next (read_bytes-write_bytes (b + 1) bs (write_byte d b x e) (omega arith)))
