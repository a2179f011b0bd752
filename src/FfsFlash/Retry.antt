-- ===== src/FfsFlash/Retry.antt =====
-- The retries of src/ffs_block.c, on a device that may return anything at any time.
use Prim.Native.Nat.{bit_or}
use sapphire_os.Prelude.{
  ltb, if◌then◌else◌, lt→ltb, Bool-cases, same_bytes, Returns-bind, Returns-mono, Returns, returns,
  ℕ, zero, suc, ◌+◌, ◌-◌, ◌^◌, ◌<◌, ◌≡◌, refl, sym, ap, ap₂, ◌∙◌, inl, inr, true, ◌&&◌, Option,
  none, some, List, [], ◌∷◌, arith,
}
use sapphire_os.System.{Kernel, stats_increment, set_warnings, warn_flash_fs_hard_error}
use sapphire_os.System.Stat
use sapphire_os.FfsFlash.{
  FlashDevice, Ffs, max_files, meta0, meta1, meta_size, file_id, block_of, io_attempts, soft_error,
  hard_error, read_meta_loop, read_meta,
}

-- one more, up to the largest value of a counter
abbrev pub saturated : ℕ → ℕ
saturated n = if ltb n (2 ^ 32 - 1) then n + 1 else n

-- a counter after `n` more events
abbrev pub after_events : ℕ → ℕ → ℕ
after_events zero count = count
after_events (suc n) count = after_events n (saturated count)

-- The outcome of a read of a header in `n` attempts or fewer, each of which that fails is counted as a
-- soft error: a sound header, which the last attempt read from both places, or an error after `n`
-- attempts that was counted and raised a warning. The lists of blocks stay as they are.
pub data MetaRead {D : Type 0} (d : FlashDevice D) (block n : ℕ) (s : Ffs D)
    : Option (List ℕ) × Ffs D → Type 0 where
  found :
      (meta : List ℕ) (t : Ffs D) (failures : ℕ) (f : D)
      → failures < n
      → (d.read (meta0 block) meta_size f).0 ≡ meta
      → (d.read (meta1 block) meta_size (d.read (meta0 block) meta_size f).1).0 ≡ meta
      → t.kernel.stats Stat.flash_fs_soft_io_errors
        ≡ after_events failures (s.kernel.stats Stat.flash_fs_soft_io_errors)
      → file_id meta < max_files
      → block_of meta < s.blocks.total_blocks
      → t.blocks ≡ s.blocks
      → t.kernel.stats Stat.flash_fs_hard_io_errors ≡ s.kernel.stats Stat.flash_fs_hard_io_errors
      → t.kernel.warnings ≡ s.kernel.warnings
      → MetaRead d block n s (some meta, t)
  failed :
      (t : Ffs D)
      → t.kernel.stats Stat.flash_fs_soft_io_errors
        ≡ after_events n (s.kernel.stats Stat.flash_fs_soft_io_errors)
      → t.blocks ≡ s.blocks
      → t.kernel.stats Stat.flash_fs_hard_io_errors
        ≡ saturated (s.kernel.stats Stat.flash_fs_hard_io_errors)
      → t.kernel.warnings ≡ bit_or s.kernel.warnings warn_flash_fs_hard_error
      → MetaRead d block n s (none, t)

-- a soft error changes its own counter only
SoftError : Kernel → Kernel → Type 0
SoftError k k' =
    (k'.stats Stat.flash_fs_hard_io_errors ≡ k.stats Stat.flash_fs_hard_io_errors)
    × (k'.warnings ≡ k.warnings)
    × (k'.stats Stat.flash_fs_soft_io_errors ≡ saturated (k.stats Stat.flash_fs_soft_io_errors))

soft_error-SoftError : (k : Kernel) → Returns (SoftError k) (soft_error k)
unfolding soft_error stats_increment SoftError
soft_error-SoftError k = returns (ground arith)

hard_error-counted :
    (k : Kernel)
    → Returns
        (λ k'.
          (k'.stats Stat.flash_fs_hard_io_errors ≡ saturated (k.stats Stat.flash_fs_hard_io_errors))
          × (k'.warnings ≡ bit_or k.warnings warn_flash_fs_hard_error)
          × (k'.stats Stat.flash_fs_soft_io_errors ≡ k.stats Stat.flash_fs_soft_io_errors))
        (hard_error k)
unfolding hard_error stats_increment set_warnings
hard_error-counted k = returns (ground arith)

same_bytes-eq : (xs ys : List ℕ) → same_bytes xs ys ≡ true → xs ≡ ys
same_bytes-eq [] [] e = refl
same_bytes-eq [] (y ∷ ys) e = cc
same_bytes-eq (x ∷ xs) [] e = cc
same_bytes-eq (x ∷ xs) (y ∷ ys) e =
    ap₂ (λ a l. a ∷ l) (ground (arith, e)) (same_bytes-eq xs ys (ground (arith, e)))

module _ {D : Type 0} (d : FlashDevice D) where
  MetaRead-later :
      (block n : ℕ) (s t : Ffs D) (r : Option (List ℕ) × Ffs D)
      → t.blocks ≡ s.blocks
      → SoftError s.kernel t.kernel
      → MetaRead d block n t r
      → MetaRead d block (suc n) s r
  unfolding SoftError
  MetaRead-later block n s t _ same soft (found meta u j g few one two count a b c e f) =
      found meta u (suc j) g (omega arith) one two (count ∙ ap (after_events j) soft.2) a
        (rw (← same) b) (c ∙ same) (e ∙ soft.0) (f ∙ soft.1)
  MetaRead-later block n s t _ same soft (failed u count c e f) =
      failed u (count ∙ ap (after_events n) soft.2) (c ∙ same) (e ∙ ap saturated soft.0)
        (f ∙ ap (λ w. bit_or w warn_flash_fs_hard_error) soft.1)

  read_meta_loop-MetaRead :
      (tries block : ℕ) (s : Ffs D)
      → Returns (MetaRead d block tries s) (read_meta_loop d tries block s)
  unfolding read_meta_loop
  read_meta_loop-MetaRead zero block s =
      Returns-bind (hard_error-counted s.kernel) λ k (counted, warned, softly).
        returns (failed (record s { kernel = k }) softly refl counted warned)
  read_meta_loop-MetaRead (suc tries) block s =
      let check = (d.read (meta0 block) meta_size s.flash).0 in
      let one = (d.read (meta0 block) meta_size s.flash).1 in
      let check1 = (d.read (meta1 block) meta_size one).0 in
      let two = (d.read (meta1 block) meta_size one).1 in
      elim (Bool-cases (
        same_bytes check check1
        && ltb (file_id check) max_files
        && ltb (block_of check) s.blocks.total_blocks)) [
          | inl e ↦
              rw (read_meta_loop, e)
                (returns (
                  found check (record s { flash = two }) 0 s.flash (omega arith) refl
                    (sym (same_bytes-eq check check1 (ground (arith, e)))) refl (ground arith)
                    (ground arith) refl refl refl))
          | inr e ↦
              rw (read_meta_loop, e)
                (Returns-bind (soft_error-SoftError s.kernel) λ k soft.
                  Returns-mono
                    (read_meta_loop-MetaRead tries block (record s { flash = two; kernel = k }))
                    λ r m.
                      MetaRead-later block tries s (record s { flash = two; kernel = k }) r refl
                        soft m)
        ]

  -- Whatever the device returns, `ffs_block_i8_read_meta` of a block inside the array ends. After at most
  -- two attempts that fail, each of them counted as a soft error, it gives a header that it read from both
  -- places, whose file and block numbers are in range; or three attempts fail, and the hard error is counted
  -- and the warning raised. The lists of blocks do not change.
  pub read_meta-MetaRead :
      (block : ℕ) (s : Ffs D)
      → block < s.blocks.total_blocks
      → Returns (MetaRead d block 3 s) (read_meta d block s)
  unfolding read_meta
  read_meta-MetaRead block s l =
      rw (lt→ltb block s.blocks.total_blocks l) (read_meta_loop-MetaRead io_attempts block s)
