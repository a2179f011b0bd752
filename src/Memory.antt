-- ===== src/Memory.antt =====
-- src/memory.c: the heap of movable blocks behind handles, and its defragmenter.
-- A pointer into `heap` is an offset; a null entry of `handles` is `none`. The bytes that start at an
-- offset and are read as a block are the value of `block` there.
pub mod Blocks
pub mod Collect
pub mod Alloc
pub mod Free
pub mod Slide
pub mod Defrag
mod Tests
use sapphire_os.Prelude.{
  ℕ, zero, suc, ◌+◌, ◌%◌, ◌/◌, Bool, true, false, ◌||◌, not, Option, none, some, ℤ, pos, negsuc,
  is_neg, inc, dec, minus_one, if◌then◌else◌, ltb, leb, ◌==◌, update, sub16, add16, Run, ok,
  assert_failed, out_of_bounds, assert, ◌>>=◌, ◌>>◌,
}
use sapphire_os.System.{Kernel, stats_increment, set_error, set_warnings, warn_mem_full}
use sapphire_os.System.Stat

abbrev pub max_handles : ℕ
max_handles = 256

abbrev pub heap_size : ℕ
heap_size = 8192

abbrev pub defrag_threshold : ℕ
defrag_threshold = 1024

abbrev pub header_size : ℕ
header_size = 4

abbrev pub dirty_mask : ℕ
dirty_mask = 0x8000

abbrev pub canary_value : ℕ
canary_value = 0x47

-- `mem_block_header_t`, the data behind it and the canary behind the data
pub record Block : Type 0 where
  pub size : ℕ
  pub handle : ℕ
  pub bytes : ℕ → ℕ
  pub canary : ℕ

-- The file's static variables; `kernel` is the state of other modules that it updates.
pub record Memory : Type 0 where
  pub handles : ℕ → Option ℕ
  pub block : ℕ → Block
  pub free_space_ptr : ℕ
  pub handles_used : ℕ
  pub free_space : ℕ
  pub used_space : ℕ
  pub dirty_space : ℕ
  pub data_space : ℕ
  pub peak_usage : ℕ
  pub stack_usage : ℕ
  pub kernel : Kernel

-- `MEM_BLOCK_SIZE`
unfoldable pub block_size : Block → ℕ
block_size b = header_size + b.size % dirty_mask + 1

abbrev pub swizzle : ℤ → ℤ
swizzle h = inc h

abbrev pub unswizzle : ℤ → ℤ
unswizzle h = dec h

unfoldable pub is_dirty : Block → Bool
is_dirty b = b.size / dirty_mask % 2 == 1

unfoldable pub set_dirty : Block → Block
unfolding is_dirty
set_dirty b = if is_dirty b then b else record b { size = b.size + dirty_mask }

-- the read of `handles[handle]`
unfoldable pub handle_at : ℤ → Memory → Run (Option ℕ)
handle_at (negsuc n) m = out_of_bounds
handle_at (pos i) m = if ltb i max_handles then ok (m.handles i) else out_of_bounds

abbrev pub not_null : Option ℕ → Run ℕ
not_null none = assert_failed
not_null (some p) = ok p

unfoldable pub verify_handle : ℤ → Memory → Run (Unit {0})
verify_handle h m = do
  entry ← handle_at h m
  p ← not_null entry
  assert (not (is_neg h))
  assert ((m.block p).canary == canary_value)
  assert (not (is_dirty (m.block p)))

-- `mem2_v_init`, less the creation of the thread
unfoldable pub init : Memory → Memory
init m = record m {
  free_space = heap_size;
  free_space_ptr = 0;
  used_space = 0;
  data_space = 0;
  dirty_space = 0;
  handles = λ i. if ltb i max_handles then none else m.handles i;
  handles_used = 0;
}

-- `mem2_b_verify_handle`
verify_block : ℕ → Memory → Bool × Memory
verify_block p m =
    if not ((m.block p).canary == canary_value)
    then (false, record m { kernel = set_error 3 m.kernel })
    else if is_dirty (m.block p)
    then (false, record m { kernel = set_error 4 m.kernel })
    else (true, m)

unfoldable pub verify : ℤ → Memory → Run (Bool × Memory)
unfolding verify_block
verify h m = if is_neg h then ok (false, record m { kernel = set_error 1 m.kernel }) else do
  entry ← handle_at (unswizzle h) m
  ok elim entry [
    | none ↦ (false, record m { kernel = set_error 2 m.kernel })
    | some p ↦ verify_block p m
  ]

-- the first of `n` table entries from `i` on that is null
unfoldable pub first_unused : ℕ → ℕ → (ℕ → Option ℕ) → Option ℕ
first_unused zero i table = none
first_unused (suc n) i table = elim (table i) [
  | none ↦ some i
  | some _ ↦ first_unused n (i + 1) table
]

-- the label `failed` of `mem2_h_alloc`
unfoldable pub alloc_failed : Memory → Run (ℤ × Memory)
alloc_failed m = do
  k ← stats_increment Stat.mem_failed_allocations m.kernel
  ok (minus_one, record m { kernel = set_warnings warn_mem_full k })

-- the new block's header and canary; its data is what the heap held
unfoldable pub new_block : ℕ → ℕ → Block → Block
new_block size h old = record old { size = size; handle = h; canary = canary_value }

-- `mem2_h_alloc` from the comment "create the memory block" on
unfoldable pub alloc_at : ℕ → ℕ → Memory → Run (ℤ × Memory)
unfolding new_block
alloc_at size h m = do
  let p = m.free_space_ptr
  let header = new_block size h (m.block p)
  let free = sub16 m.free_space (block_size header)
  let used = add16 m.used_space (block_size header)
  assert (leb free heap_size)
  k ← stats_increment Stat.mem_allocations m.kernel
  ok (
    swizzle (pos h),
    record m {
      handles = update m.handles h (some p);
      block = update m.block p header;
      handles_used = add16 m.handles_used 1;
      data_space = add16 m.data_space size;
      free_space_ptr = p + block_size header;
      free_space = free;
      used_space = used;
      peak_usage = if ltb m.peak_usage used then used else m.peak_usage;
      kernel = k;
    },
  )

-- `mem2_h_alloc`
unfoldable pub alloc : ℕ → Memory → Run (ℤ × Memory)
alloc size m =
    if ltb heap_size size || ltb m.free_space (add16 (size + header_size) 1)
    then alloc_failed m
    else elim (first_unused max_handles 0 m.handles) [
      | none ↦ alloc_failed m
      | some h ↦ alloc_at size h m
    ]

unfoldable pub release_block : ℕ → ℕ → Memory → Run Memory
release_block h p m = do
  let header = m.block p
  let dirty = set_dirty header
  k ← stats_increment Stat.mem_frees m.kernel
  ok (record m {
    handles = update m.handles h none;
    handles_used = sub16 m.handles_used 1;
    data_space = sub16 m.data_space header.size;
    block = update m.block p dirty;
    dirty_space = add16 m.dirty_space (block_size dirty);
    used_space = sub16 m.used_space (block_size dirty);
    kernel = k;
  })

-- the call of `release_block` at a handle that `verify_handle` passed
release_at : ℤ → Memory → Run Memory
release_at (negsuc n) m = ok m
release_at (pos h) m = do entry ← handle_at (pos h) m; p ← not_null entry; release_block h p m

-- `mem2_v_free`
unfoldable pub free : ℤ → Memory → Run Memory
unfolding release_at
free handle m =
    let h = unswizzle handle in if is_neg h then ok m else do verify_handle h m; release_at h m

-- `mem2_u16_get_size`
unfoldable pub get_size : ℤ → Memory → Run ℕ
get_size handle m = do
  verify_handle (unswizzle handle) m
  entry ← handle_at (unswizzle handle) m
  p ← not_null entry
  ok ((m.block p).size)

-- `mem2_vp_get_ptr`: the offset of the block's data
unfoldable pub get_ptr : ℤ → Memory → Run ℕ
get_ptr handle m = do
  verify_handle (unswizzle handle) m
  entry ← handle_at (unswizzle handle) m
  p ← not_null entry
  ok (p + header_size)

-- `mem2_v_check_canaries` over the `n` table entries from `i` on
unfoldable pub check_canaries : ℕ → ℕ → Memory → Run (Unit {0})
check_canaries zero i m = ok tt
check_canaries (suc n) i m = elim (m.handles i) [
  | none ↦ check_canaries n (i + 1) m
  | some p ↦ assert ((m.block p).canary == canary_value) >>= λ _. check_canaries n (i + 1) m
]
