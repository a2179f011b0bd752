-- ===== src/FfsFlash.antt =====
-- src/ffs_block.c where it reads and writes the flash: the flags, the header and the page index of a
-- block, each of which is stored twice.
-- The flash driver src/flash25.c is a parameter: a device whose reads may give anything, and may
-- differ from one attempt to the next. A structure in flash is the list of its bytes.
pub mod Retry
pub mod Device
pub mod Index
pub mod Mount
mod Tests
use sapphire_os.Prelude.{
  ltb, leb, ◌==◌, if◌then◌else◌, same_bytes, is_neg, minus_one, ℤ, add8, ◌>>=◌, ◌>>◌, assert, Run,
  pos, negsuc, ok, ℕ, zero, suc, ◌+◌, ◌-◌, ◌*◌, ◌/◌, ◌%◌, ◌^◌, Bool, true, false, not, ◌&&◌, Option,
  none, some, List, [], ◌∷◌,
}
use sapphire_os.System.{Kernel, stats_increment, set_warnings, warn_flash_fs_hard_error}
use sapphire_os.System.Stat
use sapphire_os.FfsBlock.{
  ListName, Blocks, below_total, add_to_list, remove_from_list, next_block_of,
}

-- the functions of src/flash25.h that the file system calls, on the device's state
pub record FlashDevice (D : Type 0) : Type 0 where
  pub read : ℕ → ℕ → D → List ℕ × D
  pub write : ℕ → List ℕ → D → D
  pub erase_4k : ℕ → D → D
  pub capacity : D → ℕ

pub record Ffs (D : Type 0) : Type 0 where
  pub flash : D
  pub kernel : Kernel
  pub blocks : Blocks

-- `FFS_IO_ATTEMPTS`
abbrev pub io_attempts : ℕ
io_attempts = 3

-- `FFS_MAX_FILES`
abbrev pub max_files : ℕ
max_files = 16

abbrev pub erase_block_size : ℕ
erase_block_size = 4096

-- `FLASH_FS_FILE_SYSTEM_START`
abbrev pub file_system_start : ℕ
file_system_start = 4096 + 131072

-- `FFS_PAGES_PER_BLOCK`
abbrev pub pages_per_block : ℕ
pages_per_block = 59

abbrev pub data_pages_per_block : ℕ
data_pages_per_block = 51

-- `sizeof(ffs_block_meta_t)`, and of `ffs_block_header_t`
abbrev pub meta_size : ℕ
meta_size = 8

abbrev pub header_length : ℕ
header_length = 67

-- `FFS_META_0`, `FFS_META_1`, `FFS_INDEX_0` and `FFS_INDEX_1`
unfoldable pub meta0 : ℕ → ℕ
meta0 block = block * erase_block_size + file_system_start

abbrev pub meta1 : ℕ → ℕ
meta1 block = meta0 block + header_length

abbrev pub index0 : ℕ → ℕ
index0 block = meta0 block + meta_size

abbrev pub index1 : ℕ → ℕ
index1 block = index0 block + header_length

-- a field of a structure, by its place
abbrev pub byte_at : ℕ → List ℕ → ℕ
byte_at i [] = 0
byte_at zero (b ∷ bs) = b
byte_at (suc i) (b ∷ bs) = byte_at i bs

abbrev pub file_id : List ℕ → ℕ
file_id meta = byte_at 0 meta

abbrev pub flags_of : List ℕ → ℕ
flags_of meta = byte_at 1 meta

abbrev pub block_of : List ℕ → ℕ
block_of meta = byte_at 2 meta

-- `ffs_block_v_soft_error`
unfoldable pub soft_error : Kernel → Run Kernel
soft_error k = stats_increment Stat.flash_fs_soft_io_errors k

-- `ffs_block_v_hard_error`
unfoldable pub hard_error : Kernel → Run Kernel
hard_error k = do
  counted ← stats_increment Stat.flash_fs_hard_io_errors k
  ok (set_warnings warn_flash_fs_hard_error counted)

-- `ffs_block_b_is_dirty`
unfoldable pub meta_is_dirty : List ℕ → Bool
meta_is_dirty meta = flags_of meta / 2 ^ 7 % 2 == 0

module _ {D : Type 0} (d : FlashDevice D) where
  open d use {read, write, erase_4k, capacity}

  abbrev pub read_byte : ℕ → D → ℕ × D
  read_byte addr flash = let (bytes, flash') = read addr 1 flash in (byte_at 0 bytes, flash')

  -- both copies of the flags, until they agree
  unfoldable pub read_flags_loop : ℕ → ℕ → D → ℕ × D
  read_flags_loop zero block flash = (0, flash)
  read_flags_loop (suc tries) block flash =
      let (flags0, one) = read_byte (meta0 block + 1) flash in
      let (flags1, two) = read_byte (meta1 block + 1) one in
      elim (flags0 == flags1) [ true ↦ (flags0, two) | false ↦ read_flags_loop tries block two ]

  -- `ffs_block_u8_read_flags`
  unfoldable pub read_flags : ℕ → Ffs D → Run (ℕ × Ffs D)
  read_flags block s = do
    assert (ltb block s.blocks.total_blocks)
    let (flags, flash) = read_flags_loop io_attempts block s.flash
    ok (flags, record s { flash = flash })

  -- `ffs_block_v_set_dirty`
  unfoldable pub set_dirty : ℕ → Ffs D → Run (Ffs D)
  set_dirty block s = do
    (flags, t) ← read_flags block s
    let dirty = flags % 2 ^ 7
    let written =
        write (meta1 block + 1) (dirty ∷ []) (write (meta0 block + 1) (dirty ∷ []) t.flash)
    let (back0, one) = read_byte (meta0 block + 1) written
    let (back1, two) = if back0 == dirty then (dirty, one) else read_byte (meta1 block + 1) one
    let last =
        if not (back0 == dirty) && not (back1 == dirty)
        then write (meta1 block + 1) (0 ∷ []) (write (meta0 block + 1) (0 ∷ []) two)
        else two
    blocks ← add_to_list ListName.dirty (pos block) t.blocks
    ok (record t { flash = last; blocks = blocks })

  -- `ffs_block_i8_erase`; the wait for the device is part of `erase_4k`
  unfoldable pub erase : ℕ → Ffs D → Run (Ffs D)
  erase block s = do
    blocks ← add_to_list ListName.free (pos block) s.blocks
    ok (record s { flash = erase_4k (meta0 block) s.flash; blocks = blocks })

  -- the loop of `ffs_block_i8_read_meta`; `none` is FFS_STATUS_ERROR
  unfoldable pub read_meta_loop : ℕ → ℕ → Ffs D → Run (Option (List ℕ) × Ffs D)
  read_meta_loop zero block s = do k ← hard_error s.kernel; ok (none, record s { kernel = k })
  read_meta_loop (suc tries) block s =
      let (check, one) = read (meta0 block) meta_size s.flash in
      let (check1, two) = read (meta1 block) meta_size one in
      elim (same_bytes check check1
        && ltb (file_id check) max_files
        && ltb (block_of check) s.blocks.total_blocks) [
          | true ↦ ok (some check, record s { flash = two })
          | false ↦ soft_error s.kernel >>= λ k.
              read_meta_loop tries block (record s { flash = two; kernel = k })
        ]

  -- `ffs_block_i8_read_meta`
  unfoldable pub read_meta : ℕ → Ffs D → Run (Option (List ℕ) × Ffs D)
  read_meta block s = do
    assert (ltb block s.blocks.total_blocks)
    read_meta_loop io_attempts block s

  -- `ffs_block_i8_write_meta`; the result is whether it succeeded
  unfoldable pub write_meta : ℕ → List ℕ → Ffs D → Run (Bool × Ffs D)
  write_meta block meta s = do
    let flash = write (meta1 block) meta (write (meta0 block) meta s.flash)
    (found, t) ← read_meta block (record s { flash = flash })
    ok (elim found [ none ↦ false | some check ↦ true ], t)

  -- the loop of `ffs_block_i8_read_index`
  unfoldable pub read_index_loop : ℕ → ℕ → Ffs D → Run (Option (List ℕ) × Ffs D)
  read_index_loop zero block s = do k ← hard_error s.kernel; ok (none, record s { kernel = k })
  read_index_loop (suc tries) block s =
      let (check, one) = read (index0 block) pages_per_block s.flash in
      let (check1, two) = read (index1 block) pages_per_block one in
      elim (same_bytes check check1) [
        | true ↦ ok (some check, record s { flash = two })
        | false ↦ soft_error s.kernel >>= λ k.
            read_index_loop tries block (record s { flash = two; kernel = k })
      ]

  -- `ffs_block_i8_read_index`
  unfoldable pub read_index : ℕ → Ffs D → Run (Option (List ℕ) × Ffs D)
  read_index block s = do
    assert (ltb block s.blocks.total_blocks)
    read_index_loop io_attempts block s

  -- `ffs_block_i8_set_index_entry`
  unfoldable pub set_index_entry : ℕ → ℕ → ℕ → Ffs D → Run (Bool × Ffs D)
  set_index_entry block logical phy s = do
    assert (ltb logical data_pages_per_block)
    assert (ltb phy pages_per_block)
    let written =
        write (index1 block + phy) (logical ∷ [])
          (write (index0 block + phy) (logical ∷ []) s.flash)
    let (back0, one) = read_byte (index0 block + phy) written
    let (back1, two) =
        if back0 == logical then read_byte (index1 block + phy) one else (logical, one)
    ok ((back0 == logical) && (back1 == logical), record s { flash = two })

-- `ffs_index_info_t`; -1 is `minus_one`
pub record IndexInfo : Type 0 where
  pub data_pages : ℕ
  pub free_pages : ℕ
  pub phy_last_page : ℤ
  pub logical_last_page : ℤ
  pub phy_next_free : ℤ

-- `int8_t` of a byte
abbrev pub signed8 : ℕ → ℤ
signed8 b = if ltb b 128 then pos b else negsuc (255 - b)

-- `entry >= last`, an `int8_t` on the right
abbrev pub reaches : ℕ → ℤ → Bool
reaches entry (pos last) = leb last entry
reaches entry (negsuc i) = true

-- the body of the loop of `ffs_block_i8_get_index_info`, at page `i`
unfoldable pub scan_entry : ℕ → ℕ → IndexInfo → IndexInfo
scan_entry i entry info =
    if entry == 0xff
    then record info {
      free_pages = add8 info.free_pages 1;
      phy_next_free = if is_neg info.phy_next_free then pos i else info.phy_next_free;
    }
    else if reaches entry info.logical_last_page
    then record info { logical_last_page = signed8 entry; phy_last_page = pos i }
    else info

unfoldable pub scan_index : ℕ → List ℕ → IndexInfo → IndexInfo
scan_index i [] info = info
scan_index i (entry ∷ rest) info = scan_index (i + 1) rest (scan_entry i entry info)

abbrev pub no_pages : IndexInfo
no_pages = record {
  data_pages = 0;
  free_pages = 0;
  phy_last_page = minus_one;
  logical_last_page = minus_one;
  phy_next_free = minus_one;
}

-- `logical_last_page + 1`, as a `uint8_t`
abbrev pub count_pages : ℤ → ℕ
count_pages (pos n) = add8 n 1
count_pages (negsuc i) = (2 ^ 8 - i) % 2 ^ 8

module _ {D : Type 0} (d : FlashDevice D) where
  -- `ffs_block_i8_get_index_info`
  unfoldable pub get_index_info : ℕ → Ffs D → Run (Option IndexInfo × Ffs D)
  get_index_info block s = do
    (index, t) ← read_index d block s
    ok (
      elim index [
        | none ↦ none
        | some pages ↦
            let info = scan_index 0 pages no_pages in
            some (record info { data_pages = count_pages info.logical_last_page })
      ],
      t,
    )
