-- ===== src/FfsFlash/Device.antt =====
-- The functions of src/ffs_block.c on a device that keeps what is written to it.
use sapphire_os.Prelude.{
  lt→ltb, length, same_bytes_self, Returns-bind, Returns-mono, Returns, returns, ℕ, zero, suc, ◌+◌,
  ◌≤◌, ◌<◌, ◌≡◌, refl, ap, ap₂, ◌∙◌, ◌⊎◌, inl, inr, true, some, List, [], ◌∷◌, arith,
}
use mathlib.Core.Path.{subst}
use sapphire_os.FfsFlash.{
  FlashDevice, Ffs, max_files, meta0, meta1, meta_size, erase_block_size, file_id, block_of,
  read_meta_loop, read_meta, write_meta,
}

-- `n` bytes from an address on
abbrev pub cells : (ℕ → ℕ) → ℕ → ℕ → List ℕ
cells f addr zero = []
cells f addr (suc n) = f addr ∷ cells f (addr + 1) n

-- What the data sheet promises of a working device: a read gives the bytes and changes none, and a
-- write to erased bytes stores what is written and changes no other byte. The driver src/flash25.c
-- writes nothing to the first block of 4096 bytes, so of a write there nothing is demanded but that.
pub record IsReliable {D : Type 0} (d : FlashDevice D) (contents : D → ℕ → ℕ) : Type 0 where
  pub read_cells : (addr n : ℕ) (f : D) → (d.read addr n f).0 ≡ cells (contents f) addr n
  pub read_keeps : (addr n a : ℕ) (f : D) → contents (d.read addr n f).1 a ≡ contents f a
  pub write_erased :
      (addr : ℕ) (bytes : List ℕ) (f : D)
      → erase_block_size ≤ addr
      → cells (contents f) addr (length bytes) ≡ cells (λ _. 0xff) 0 (length bytes)
      → cells (contents (d.write addr bytes f)) addr (length bytes) ≡ bytes
  pub write_elsewhere :
      (addr a : ℕ) (bytes : List ℕ) (f : D)
      → (a < addr) ⊎ (addr + length bytes ≤ a)
      → contents (d.write addr bytes f) a ≡ contents f a

pub cells-eq :
    (f g : ℕ → ℕ) (addr n : ℕ)
    → ((a : ℕ) → addr ≤ a → a < addr + n → f a ≡ g a)
    → cells f addr n ≡ cells g addr n
cells-eq f g addr zero h = refl
cells-eq f g addr (suc n) h =
    ap₂ (λ x xs. x ∷ xs) (h addr (omega arith) (omega arith))
      (cells-eq f g (addr + 1) n (λ a l m. h a (omega arith) (omega arith)))

-- the file system lies behind the first block
meta0-behind : (block : ℕ) → erase_block_size ≤ meta0 block
unfolding meta0
meta0-behind block = omega arith

module _ {D : Type 0} (d : FlashDevice D) (contents : D → ℕ → ℕ) (r : IsReliable d contents) where
  -- where both copies of a header are the same sound header, a read gives it
  read_meta-stored :
      (block : ℕ) (meta : List ℕ) (s : Ffs D)
      → block < s.blocks.total_blocks
      → cells (contents s.flash) (meta0 block) meta_size ≡ meta
      → cells (contents s.flash) (meta1 block) meta_size ≡ meta
      → file_id meta < max_files
      → block_of meta < s.blocks.total_blocks
      → Returns
          (λ (found, t).
            (found ≡ some meta)
            × (t.blocks ≡ s.blocks)
            × ((a : ℕ) → contents t.flash a ≡ contents s.flash a))
          (read_meta d block s)
  unfolding read_meta read_meta_loop
  read_meta-stored block meta s l copy0 copy1 id number =
      let one = (d.read (meta0 block) meta_size s.flash).1 in
      let first : (d.read (meta0 block) meta_size s.flash).0 ≡ meta =
        r.read_cells (meta0 block) meta_size s.flash ∙ copy0 in
      let second : (d.read (meta1 block) meta_size one).0 ≡ meta =
        r.read_cells (meta1 block) meta_size one
        ∙ cells-eq (contents one) (contents s.flash) (meta1 block) meta_size
            (λ a p q. r.read_keeps (meta0 block) meta_size a s.flash)
        ∙ copy1 in
      rw
        (
          lt→ltb block s.blocks.total_blocks l,
          read_meta_loop,
          first,
          second,
          same_bytes_self meta,
          lt→ltb (file_id meta) max_files id,
          lt→ltb (block_of meta) s.blocks.total_blocks number,
        )
        (returns (
          ap (λ m. some m) first,
          refl,
          λ a.
              r.read_keeps (meta1 block) meta_size a one
              ∙ r.read_keeps (meta0 block) meta_size a s.flash,
        ))

  -- On a reliable device, a sound header of eight bytes that `ffs_block_i8_write_meta` writes to an
  -- erased block is written with success, and is what `ffs_block_i8_read_meta` then reads.
  pub read_meta-write_meta :
      (block : ℕ) (meta : List ℕ) (s : Ffs D)
      → block < s.blocks.total_blocks
      → length meta ≡ meta_size
      → file_id meta < max_files
      → block_of meta < s.blocks.total_blocks
      → ((a : ℕ) → meta0 block ≤ a → a < meta0 block + erase_block_size → contents s.flash a ≡ 0xff)
      → Returns
          (λ (done, t).
            (done ≡ true) × Returns (λ (found, u). found ≡ some meta) (read_meta d block t))
          (write_meta d block meta s)
  unfolding write_meta
  read_meta-write_meta block meta s l size id number blank =
      let one = d.write (meta0 block) meta s.flash in
      let two = d.write (meta1 block) meta one in
      let blank_cells =
        λ (f : D) (addr : ℕ) (h : (a : ℕ) → addr ≤ a → a < addr + meta_size → contents f a ≡ 0xff).
          cells-eq (contents f) (λ _. 0xff) addr meta_size h in
      let copy0 : cells (contents two) (meta0 block) meta_size ≡ meta =
        cells-eq (contents two) (contents one) (meta0 block) meta_size
          (λ a p q. r.write_elsewhere (meta1 block) a meta one (inl (omega arith)))
        ∙ subst (λ n. cells (contents one) (meta0 block) n ≡ meta) size
            (r.write_erased (meta0 block) meta s.flash (meta0-behind block)
              (rw size (blank_cells s.flash (meta0 block) (λ a p q. blank a p (omega arith))))) in
      let copy1 : cells (contents two) (meta1 block) meta_size ≡ meta =
        subst (λ n. cells (contents two) (meta1 block) n ≡ meta) size
          (r.write_erased (meta1 block) meta one (omega (arith, meta0-behind block)) (
            rw size (
              blank_cells one (meta1 block) (λ a p q.
                r.write_elsewhere (meta0 block) a meta s.flash (inr (omega (arith, size)))
                ∙ blank a (omega arith) (omega arith))))) in
      Returns-bind (read_meta-stored block meta (record s { flash = two }) l copy0 copy1 id number)
        λ (found, t) (is, same, kept). rw is (
          returns (
            refl,
            Returns-mono
                (read_meta-stored block meta t (rw same l)
                  (cells-eq (contents t.flash) (contents two) (meta0 block) meta_size
                      (λ a p q. kept a)
                    ∙ copy0)
                  (cells-eq (contents t.flash) (contents two) (meta1 block) meta_size
                      (λ a p q. kept a)
                    ∙ copy1)
                  id (rw same number))
                λ out p. p.0,
          ))
