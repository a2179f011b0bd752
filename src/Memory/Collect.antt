-- ===== src/Memory/Collect.antt =====
-- `mem2_garbage_collector_thread` of src/memory.c. Each loop runs on fuel, and is given one round more
-- than the heap has bytes in use; a block has five bytes at least.
use sapphire_os.Prelude.{
  ltb, leb, if◌then◌else◌, update, add16, ◌>>=◌, ◌>>◌, assert, Run, ok, out_of_fuel, ℕ, zero, suc,
  ◌+◌, true, false, not, ◌&&◌, Option, none, some,
}
use sapphire_os.System.{stats_increment}
use sapphire_os.System.Stat
use sapphire_os.Memory.{
  Block, Memory, max_handles, defrag_threshold, block_size, is_dirty, check_canaries,
}

abbrev pub max_stack : ℕ
max_stack = 2048

-- the first loop: from `p` to the first dirty block, or to the free space
unfoldable pub find_dirty : ℕ → Memory → ℕ → Run ℕ
find_dirty zero m p = out_of_fuel
find_dirty (suc k) m p = elim (not (is_dirty (m.block p)) && ltb p m.free_space_ptr) [
  | true ↦ find_dirty k m (p + block_size (m.block p))
  | false ↦ ok p
]

-- the inner loop: past the dirty blocks from `clean` on; `none` is `goto done_defrag`
unfoldable pub skip_dirty : ℕ → Memory → ℕ → Run (Option ℕ)
skip_dirty zero m clean = out_of_fuel
skip_dirty (suc k) m clean = elim (is_dirty (m.block clean)) [
  | true ↦ elim (leb m.free_space_ptr (clean + block_size (m.block clean))) [
    | true ↦ ok none
    | false ↦ skip_dirty k m (clean + block_size (m.block clean))
  ]
  | false ↦ ok (some clean)
]

-- `memcpy` of a block to an address from an address, where the two may overlap: the block that it
-- leaves at the first
abbrev pub Memcpy : Type 0
Memcpy = ℕ → ℕ → Block → Block

-- the block at `clean` is copied to `dirty`, and its handle led there
unfoldable pub move_block : Memcpy → Memory → ℕ → ℕ → Memory
move_block memcpy m clean dirty = record m {
  handles = update m.handles (m.block clean).handle (some dirty);
  block = update m.block dirty (memcpy dirty clean (m.block clean));
}

-- the outer loop; the result is the memory and the final `dirty` pointer
unfoldable pub slide : Memcpy → ℕ → ℕ → Memory → ℕ → ℕ → Run (Memory × ℕ)
slide memcpy skips zero m clean dirty = out_of_fuel
slide memcpy skips (suc k) m clean dirty = elim (ltb clean m.free_space_ptr) [
  | true ↦ skip_dirty skips m clean >>= λ found. elim found [
    | none ↦ ok (m, dirty)
    | some c ↦
        let m' = move_block memcpy m c dirty in
        slide memcpy skips k m' (c + block_size (m.block c)) (dirty + block_size (m'.block dirty))
  ]
  | false ↦ ok (m, dirty)
]

-- the memory after `done_defrag`: what lies behind `dirty` is free
unfoldable pub reclaim : ℕ → Memory → Memory
reclaim dirty m = record m {
  free_space_ptr = dirty;
  free_space = add16 m.free_space m.dirty_space;
  dirty_space = 0;
}

-- the body of the thread's loop behind its wait; `stack` is what `stack_count` returns
unfoldable pub defrag : Memcpy → ℕ → Memory → Run Memory
unfolding reclaim
defrag memcpy stack m = do
  let rounds = m.free_space_ptr + 1
  dirty ← find_dirty rounds m 0
  (moved, end) ← slide memcpy rounds rounds m (if ltb 0 dirty then dirty else 0) dirty
  kernel ← stats_increment Stat.mem_defrags moved.kernel
  let swept = reclaim end (record moved { kernel = kernel })
  check_canaries max_handles 0 swept
  assert (ltb stack max_stack)
  ok (record swept { stack_usage = stack })

-- one pass of the thread, as `mem2_v_collect_garbage` runs it
unfoldable pub collect : Memcpy → ℕ → Memory → Run Memory
collect memcpy stack m = if ltb m.dirty_space defrag_threshold then ok m else defrag memcpy stack m
