-- ===== src/FfsBlock.antt =====
-- The block lists of src/ffs_block.c: every block of the file system is on the list of free blocks, on
-- that of dirty blocks, or on that of one file, linked through `blocks[].next_block`.
-- The array `blocks` is the memory object that the handle `blocks_h` stands for; an index outside
-- it is `out_of_bounds`. A loop along a list has one round more than there are blocks.
pub mod Chains
pub mod Walks
pub mod Members
pub mod Links
pub mod Layout
pub mod Counts
pub mod Query
pub mod Update
pub mod Splice
pub mod Replace
mod Tests
use sapphire_os.Prelude.{
  ltb, leb, ◌==◌, if◌then◌else◌, ltb→lt, lt→ltb, le→not_ltb, eq→==, ==→eq, Bool-cases, Option-cases,
  update, length, get_elem?, length-append, is_neg, inc, dec, minus_one, ℤ, add8, add16, sub16,
  add32, sub32, mul32, ◌>>=◌, ◌>>◌, assert, within, >>=-eq-ok, Returns-bind, Returns-mono,
  Returns-ok, Run, Returns, pos, negsuc, ok, assert_failed, out_of_bounds, out_of_fuel, returns, ℕ,
  zero, suc, ◌+◌, ◌-◌, ◌*◌, ◌/◌, ◌%◌, ◌^◌, ◌≤◌, ◌<◌, ◌≡◌, refl, sym, ap, ap₂, ◌∙◌, ◌≢◌, ◌↔◌, ◌⊎◌,
  inl, inr, Bool, true, false, not, ◌&&◌, ◌||◌, Option, none, some, List, [], ◌∷◌, ◌++◌, arith,
}

-- where the pointer `block_t *head` points: to a variable of this file, or to the `start_block` of a
-- file in src/ffs_page.c
pub data ListName : Type 0 where
  free dirty : ListName
  file : ℕ → ListName

pub record Blocks : Type 0 where
  pub next_block : ℕ → ℤ
  pub total_blocks : ℕ
  pub free_list : ℤ
  pub dirty_list : ℤ
  pub free_blocks : ℕ
  pub dirty_blocks : ℕ
  pub start_block : ℕ → ℤ

abbrev pub no_free_space : ℤ
no_free_space = negsuc 1

-- `*head`
unfoldable pub head : ListName → Blocks → ℤ
head free s = s.free_list
head dirty s = s.dirty_list
head (file i) s = s.start_block i

-- `*head = block`
unfoldable pub set_head : ListName → ℤ → Blocks → Blocks
set_head free block s = record s { free_list = block }
set_head dirty block s = record s { dirty_list = block }
set_head (file i) block s = record s { start_block = update s.start_block i block }

-- `block < (block_t)total_blocks`
unfoldable pub below_total : ℤ → Blocks → Bool
below_total (pos i) s = ltb i s.total_blocks
below_total (negsuc i) s = true

-- the read of `blocks[block].next_block`
unfoldable pub next_of : ℤ → Blocks → Run ℤ
next_of (pos i) s = if ltb i s.total_blocks then ok (s.next_block i) else out_of_bounds
next_of (negsuc i) s = out_of_bounds

-- the write of `blocks[block].next_block`
unfoldable pub set_next : ℤ → ℤ → Blocks → Run Blocks
set_next (pos i) value s =
    if ltb i s.total_blocks
    then ok (record s { next_block = update s.next_block i value })
    else out_of_bounds
set_next (negsuc i) value s = out_of_bounds

abbrev pub eq_block : ℤ → ℤ → Bool
eq_block (pos a) (pos b) = a == b
eq_block (negsuc a) (negsuc b) = a == b
eq_block (pos a) (negsuc b) = false
eq_block (negsuc a) (pos b) = false

-- the count that goes with a list, one more
unfoldable pub count_up : ListName → Blocks → Blocks
count_up free s = record s { free_blocks = add16 s.free_blocks 1 }
count_up dirty s = record s { dirty_blocks = add16 s.dirty_blocks 1 }
count_up (file i) s = s

-- and one less
unfoldable pub count_down : ListName → Blocks → Blocks
count_down free s = record s { free_blocks = sub16 s.free_blocks 1 }
count_down dirty s = record s { dirty_blocks = sub16 s.dirty_blocks 1 }
count_down (file i) s = s

-- `ffs_block_i16_alloc`
unfoldable pub alloc : Blocks → Run (ℤ × Blocks)
alloc s = if s.free_blocks == 0 then ok (no_free_space, s) else do
  next ← next_of s.free_list s
  t ← set_next s.free_list minus_one (record s { free_list = next })
  ok (s.free_list, record t { free_blocks = sub16 t.free_blocks 1 })

-- `ffs_block_i16_get_dirty`
unfoldable pub get_dirty : Blocks → Run (ℤ × Blocks)
get_dirty s = if s.dirty_blocks == 0 then ok (minus_one, s) else do
  next ← next_of s.dirty_list s
  t ← set_next s.dirty_list minus_one (record s { dirty_list = next })
  ok (s.dirty_list, record t { dirty_blocks = sub16 t.dirty_blocks 1 })

-- the walk of `ffs_block_v_add_to_list` to the last block of a list
unfoldable pub last_block : ℕ → ℤ → Blocks → Run ℤ
last_block zero cur s = out_of_fuel
last_block (suc k) cur s = do
  assert (below_total cur s)
  next ← next_of cur s
  elim (eq_block next minus_one) [ true ↦ ok cur | false ↦ last_block k next s ]

abbrev pub rounds : Blocks → ℕ
rounds s = s.total_blocks + 1

-- `ffs_block_v_add_to_list`
unfoldable pub add_to_list : ListName → ℤ → Blocks → Run Blocks
add_to_list name block s = do
  t ← set_next block minus_one s
  u ←
      (if is_neg (head name t) then ok (set_head name block t) else do
        assert (below_total block t)
        last ← last_block (rounds t) (head name t) t
        set_next last block t)
  ok (count_up name u)

-- the walk to the block before `block`
unfoldable pub prev_block : ℕ → ℤ → ℤ → Blocks → Run ℤ
prev_block zero block prev s = out_of_fuel
prev_block (suc k) block prev s = do
  next ← next_of prev s
  elim (eq_block next block) [
    | true ↦ ok prev
    | false ↦ assert (not (is_neg next)) >>= λ _. prev_block k block next s
  ]

-- `ffs_block_v_replace_in_list`
unfoldable pub replace_in_list : ListName → ℤ → ℤ → Blocks → Run Blocks
replace_in_list name old_block new_block s = do
  assert (below_total old_block s)
  assert (below_total new_block s)
  t ←
      (if eq_block (head name s) old_block
        then ok (set_head name new_block s)
        else do prev ← prev_block (rounds s) old_block (head name s) s; set_next prev new_block s)
  next ← next_of old_block t
  set_next new_block next t

-- `ffs_block_v_remove_from_list`
unfoldable pub remove_from_list : ListName → ℤ → Blocks → Run Blocks
remove_from_list name block s = do
  assert (below_total block s)
  t ←
      (if eq_block (head name s) block
        then (next_of block s >>= λ next. ok (set_head name next s))
        else do
          prev ← prev_block (rounds s) block (head name s) s
          next ← next_of block s
          set_next prev next s)
  ok (count_down name t)

-- the loop of `ffs_block_b_is_in_list`
unfoldable pub search_from : ℕ → ℤ → ℤ → Blocks → Run Bool
search_from zero block cur s = out_of_fuel
search_from (suc k) block cur s = elim (is_neg cur) [
  | true ↦ ok false
  | false ↦ assert (below_total cur s) >>= λ _. elim (eq_block cur block) [
    | true ↦ ok true
    | false ↦ next_of cur s >>= λ next. search_from k block next s
  ]
]

-- `ffs_block_b_is_in_list`
unfoldable pub is_in_list : ListName → ℤ → Blocks → Run Bool
is_in_list name block s = do
  assert (below_total block s)
  search_from (rounds s) block (head name s) s

-- the loop of `ffs_block_u8_list_size`
unfoldable pub count_from : ℕ → ℤ → ℕ → Blocks → Run ℕ
count_from zero cur count s = out_of_fuel
count_from (suc k) cur count s = elim (is_neg cur) [
  | true ↦ ok count
  | false ↦ assert (below_total cur s) >>= λ _.
      next_of cur s >>= λ next. count_from k next (add8 count 1) s
]

-- `ffs_block_u8_list_size`
unfoldable pub list_size : ListName → Blocks → Run ℕ
list_size name s = count_from (rounds s) (head name s) 0 s

-- the loop of `ffs_block_i16_get_block`
unfoldable pub nth_from : ℕ → ℤ → Blocks → Run ℤ
nth_from zero cur s = ok cur
nth_from (suc index) cur s = elim (is_neg cur) [
  | true ↦ ok cur
  | false ↦ next_of cur s >>= λ next. nth_from index next s
]

-- `ffs_block_i16_get_block`
unfoldable pub get_block : ListName → ℕ → Blocks → Run ℤ
get_block name index s = do assert (ltb index s.total_blocks); nth_from index (head name s) s

-- `ffs_block_i16_next`
unfoldable pub next_block_of : ℤ → Blocks → Run ℤ
next_block_of block s = do assert (below_total block s); next_of block s
