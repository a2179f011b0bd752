-- ===== src/Config/Store.antt =====
-- The blocks of parameters in the EEPROM, and the index of the first blocks in memory: src/config.c.
use sapphire_os.Prelude.{
  leb, ◌==◌, if◌then◌else◌, update, drop, minus_one, ℤ, add8, ◌>>=◌, Run, pos, ok, ℕ, zero, suc,
  ◌+◌, ◌%◌, ◌^◌, true, false, ◌&&◌, Option, none, some, List,
}
use sapphire_os.Config.{
  Eeprom, Config, CfgIndex, block_size, total_blocks, index_size, empty_block, field, no_entry,
  block_address, write_byte, write_bytes, read_bytes,
}

-- the loop of `erase_block`, up to an entry of the index
unfoldable pub remove_entries : ℕ → ℕ → (ℕ → CfgIndex) → ℕ → CfgIndex
remove_entries zero block index = index
remove_entries (suc n) block index =
    let rest = remove_entries n block index in
    if (rest n).block_number == block then update rest n no_entry else rest

-- the search of `seek_block` in the index: `k` entries from entry `i` on
unfoldable pub seek_index : ℕ → ℕ → ℕ → (ℕ → CfgIndex) → Option ℕ
seek_index zero i id index = none
seek_index (suc k) i id index =
    let rest = seek_index k (i + 1) id index in
    if (index i).id == id then some (index i).block_number else rest

-- the entry that `seek_block` adds to the index
unfoldable pub add_to_index : {E : Type 0} → ℕ → ℕ → Config E → Config E
add_to_index id block s = record s {
  cfg_index =
      update s.cfg_index s.cfg_index_insert (record { id = id; block_number = block % 2 ^ 8 });
  cfg_index_insert =
      if leb index_size (add8 s.cfg_index_insert 1) then 0 else add8 s.cfg_index_insert 1;
}

module _ {E : Type 0} (d : Eeprom E) where
  open d use {read}

  -- `read_block_id`
  unfoldable pub read_block_id : ℕ → E → Run ℕ
  read_block_id block e = do address ← block_address block; ok (read address e)

  -- `read_block_number`
  unfoldable pub read_block_number : ℕ → E → Run ℕ
  read_block_number block e = do address ← block_address block; ok (read (address + 2) e)

  -- `erase_block`
  unfoldable pub erase_block : ℕ → Config E → Run (Config E)
  erase_block block s = do
    address ← block_address block
    ok (record s {
      cfg_index = remove_entries index_size block s.cfg_index;
      eeprom = write_byte d address empty_block s.eeprom;
    })

  -- `read_block`
  unfoldable pub read_block : ℕ → E → Run (List ℕ)
  read_block block e = do address ← block_address block; ok (read_bytes d address block_size e)

  -- the search of `seek_block` in the EEPROM: `k` blocks from block `i` on
  unfoldable pub seek_eeprom : ℕ → ℕ → ℕ → ℕ → E → Run (Option ℕ)
  seek_eeprom zero i id n e = ok none
  seek_eeprom (suc k) i id n e = do
    block_id ← read_block_id i e
    number ← read_block_number i e
    elim ((block_id == id) && (number == n)) [
      | true ↦ ok (some i)
      | false ↦ seek_eeprom k (i + 1) id n e
    ]

  -- what `seek_block` does where the index does not know the block
  unfoldable pub seek_stored : ℕ → ℕ → Config E → Run (ℤ × Config E)
  seek_stored id n s = seek_eeprom total_blocks 0 id n s.eeprom >>= λ found. ok (elim found [
    | none ↦ (minus_one, s)
    | some block ↦ (pos block, if n == 0 then add_to_index id block s else s)
  ])

  -- `seek_block`
  unfoldable pub seek_block : ℕ → ℕ → Config E → Run (ℤ × Config E)
  seek_block id n s = elim (if n == 0 then seek_index index_size 0 id s.cfg_index else none) [
    | some block ↦ ok (pos block, s)
    | none ↦ seek_stored id n s
  ]

  -- `write_block`
  unfoldable pub write_block : ℕ → List ℕ → E → Run E
  write_block block bytes e = do
    address ← block_address block
    ok (write_byte d address (field 0 bytes) (write_bytes d (address + 1) (drop 1 bytes) e))

  -- the loop of `get_free_block`: `k` blocks from block `i` on
  unfoldable pub free_block_from : ℕ → ℕ → E → Run ℤ
  free_block_from zero i e = ok minus_one
  free_block_from (suc k) i e = do
    id ← read_block_id i e
    elim (id == empty_block) [ true ↦ ok (pos i) | false ↦ free_block_from k (i + 1) e ]

  -- `get_free_block`
  unfoldable pub get_free_block : E → Run ℤ
  get_free_block e = free_block_from total_blocks 0 e

  -- the loop of `cfg_u16_free_blocks`
  unfoldable pub count_free : ℕ → ℕ → E → Run ℕ
  count_free zero i e = ok 0
  count_free (suc k) i e = do
    id ← read_block_id i e
    rest ← count_free k (i + 1) e
    ok (if id == empty_block then rest + 1 else rest)

  -- `cfg_u16_free_blocks`
  unfoldable pub free_blocks : E → Run ℕ
  free_blocks e = count_free total_blocks 0 e
