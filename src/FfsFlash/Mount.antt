-- ===== src/FfsFlash/Mount.antt =====
-- The mount of src/ffs_block.c: `ffs_block_v_init` reads the flags of every block and puts the free and
-- the dirty ones on their lists, and `ffs_block_i8_verify_free_space` reads the free blocks.
pub mod Lists
pub mod Reasons
pub mod Scan
pub mod Verify
use sapphire_os.Prelude.{
  ◌==◌, if◌then◌else◌, minus_one, ℤ, sub16, ◌>>=◌, ◌>>◌, assert, Run, pos, negsuc, ok, out_of_fuel,
  ℕ, zero, suc, ◌+◌, ◌*◌, ◌/◌, ◌%◌, ◌^◌, Bool, true, false, ◌&&◌, none, some, List, [], ◌∷◌,
}
use sapphire_os.FfsBlock.{ListName, Blocks, add_to_list, remove_from_list, next_block_of}
use sapphire_os.FfsFlash.{
  FlashDevice, Ffs, erase_block_size, meta0, read_flags, read_meta, set_dirty,
}

-- the blocks of the firmware partition
abbrev pub firmware_blocks : ℕ
firmware_blocks = 32

-- `sizeof(block_info_t)`
abbrev pub block_info_size : ℕ
block_info_size = 2

-- the lists of `ffs_block_v_init` before the scan; `blocks[i].next_block` is set to -1 for each block
unfoldable pub no_blocks : ℕ → Blocks
no_blocks n = record {
  next_block = λ _. minus_one;
  total_blocks = n;
  free_list = minus_one;
  dirty_list = minus_one;
  free_blocks = 0;
  dirty_blocks = 0;
  start_block = λ _. minus_one;
}

abbrev pub all_blank : List ℕ → Bool
all_blank [] = true
all_blank (b ∷ bs) = (b == 0xff) && all_blank bs

module _ {D : Type 0} (d : FlashDevice D) where
  open d use {read, capacity}

  -- the body of the loop of `ffs_block_v_init`
  unfoldable pub scan_block : ℕ → Ffs D → Run (Ffs D)
  scan_block i s = do
    (flags, t) ← read_flags d i s
    (if flags == 0xff
        then (add_to_list ListName.free (pos i) t.blocks >>= λ blocks.
            ok (record t { blocks = blocks }))
        else if flags / 2 ^ 7 % 2 == 0
        then (add_to_list ListName.dirty (pos i) t.blocks >>= λ blocks.
            ok (record t { blocks = blocks }))
        else if flags == 0xbf
        then (read_meta d i t >>= λ (meta, u). elim meta [
          | none ↦ set_dirty d i u
          | some found ↦ ok u
        ])
        else set_dirty d i t)

  -- the loop over the blocks, `n` of which are left
  unfoldable pub scan_blocks : ℕ → ℕ → Ffs D → Run (Ffs D)
  scan_blocks zero i s = ok s
  scan_blocks (suc n) i s = scan_block i s >>= λ t. scan_blocks n (i + 1) t

  -- the data of a block, in parts of 256 bytes
  unfoldable pub is_blank : ℕ → ℕ → D → Bool × D
  is_blank zero addr flash = (true, flash)
  is_blank (suc parts) addr flash =
      let (bytes, flash') = read addr 256 flash in
      elim (all_blank bytes) [ true ↦ is_blank parts (addr + 256) flash' | false ↦ (false, flash') ]

  -- the loop of `ffs_block_i8_verify_free_space`; the result says whether there were errors
  unfoldable pub verify_loop : ℕ → ℤ → Bool → Ffs D → Run (Bool × Ffs D)
  verify_loop zero block errors s = out_of_fuel
  verify_loop (suc k) (negsuc i) errors s = ok (errors, s)
  verify_loop (suc k) (pos block) errors s =
      let (blank, flash) = is_blank (erase_block_size / 256) (meta0 block) s.flash in
      let read' = record s { flash = flash } in
      elim blank [
        | true ↦ next_block_of (pos block) s.blocks >>= λ next. verify_loop k next errors read'
        | false ↦ remove_from_list ListName.free (pos block) s.blocks >>= λ blocks.
            set_dirty d block (record read' { blocks = blocks }) >>= λ t.
            next_block_of (pos block) t.blocks >>= λ next. verify_loop k next true t
      ]

  -- `ffs_block_i8_verify_free_space`
  unfoldable pub verify_free_space : Ffs D → Run (Bool × Ffs D)
  verify_free_space s = verify_loop (s.blocks.total_blocks + 1) s.blocks.free_list false s

  -- `ffs_block_v_init`; `safe_mode` is whether the system is in its safe mode, and `room` whether so many
  -- bytes can be allocated
  unfoldable pub mount : Bool → (ℕ → Bool) → Ffs D → Run (Ffs D)
  mount safe_mode room s = elim safe_mode [
    | true ↦ ok (record s { blocks = no_blocks 0 })
    | false ↦ do
      let total = sub16 (capacity s.flash / erase_block_size % 2 ^ 16) (firmware_blocks + 1)
      assert (room (total * block_info_size % 2 ^ 16))
      scanned ← scan_blocks total 0 (record s { blocks = no_blocks total })
      (errors, t) ← verify_free_space scanned
      ok t
  ]
