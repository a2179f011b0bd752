-- ===== src/Memory/Tests.antt =====
-- The functions of src/memory.c on a small heap, and the theorems about them at it.
use sapphire_os.Prelude.{
  ◌==◌, if◌then◌else◌, ◌>>=◌, Returns, pos, ok, ℕ, ◌≡◌, refl, inl, Option, none, some, List, [],
  ◌∷◌, arith,
}
use sapphire_os.System.{Kernel, stats_increment}
use sapphire_os.Memory.{
  Block, Memory, is_dirty, block_size, init, alloc, free, alloc_at, first_unused, new_block,
  canary_value, check_canaries,
}
use sapphire_os.Memory.Collect.{Memcpy, find_dirty, skip_dirty, slide, move_block, defrag}
use sapphire_os.Memory.Blocks.{release, IsValid}
use sapphire_os.Memory.Alloc.{Allocated, Failed, alloc-Allocated, alloc-Failed}
use sapphire_os.Memory.Free.{free-release}
use sapphire_os.Memory.Defrag.{Packed, defrag-live_blocks}

abbrev kernel : Kernel
kernel = record { stats = λ _. 0; error = 0; warnings = 0 }

abbrev block_of : ℕ → ℕ → Block
block_of size h = record { size = size; handle = h; bytes = λ i. i; canary = canary_value }

abbrev blank : Memory
blank = record {
  handles = λ _. none;
  block = λ _. block_of 0 0;
  free_space_ptr = 0;
  handles_used = 0;
  free_space = 0;
  used_space = 0;
  dirty_space = 0;
  data_space = 0;
  peak_usage = 0;
  stack_usage = 0;
  kernel = kernel;
}

-- ten bytes in use, twenty released, thirty in use
abbrev blocks : List Block
blocks = block_of 10 0 ∷ block_of 0x8014 1 ∷ block_of 30 2 ∷ []

abbrev handles_of : ℕ → Option ℕ
handles_of h = if h == 0 then some 0 else if h == 2 then some 40 else none

abbrev small : Memory
small = record {
  handles = handles_of;
  block =
      λ p. if p == 0 then block_of 10 0 else if p == 15 then block_of 0x8014 1 else block_of 30 2;
  free_space_ptr = 75;
  handles_used = 2;
  free_space = 8117;
  used_space = 50;
  dirty_space = 25;
  data_space = 40;
  peak_usage = 75;
  stack_usage = 100;
  kernel = kernel;
}

small-IsValid : IsValid small blocks
unfolding is_dirty block_size
small-IsValid = record {
  tiles = (refl, (refl, (refl, refl)));
  table = λ h l. ground arith;
  unique = ((λ _. refl), ((λ _. refl), ((λ _. refl), tt)));
  good = (
    record { canary = refl; size = λ _. omega arith; handle = omega arith },
    (
      record { canary = refl; size = λ d. absurd (cc d); handle = omega arith },
      (record { canary = refl; size = λ _. omega arith; handle = omega arith }, tt),
    ),
  );
  used = refl;
  dirty = refl;
  contents = refl;
  count = refl;
  whole = refl;
}

-- a memcpy under which every block arrives whole
abbrev ascending : Memcpy
ascending to from b = b

-- a first allocation in an empty heap
first_handle : (alloc 10 (init blank) >>= λ (h, m). ok h) ≡ ok (pos 1)
unfolding alloc alloc_at init first_unused new_block block_size stats_increment
first_handle = refl

-- the gap is closed and the third block moves from 40 to 15
abbrev summary : Memory → ℕ × Option ℕ × ℕ
summary m = (m.free_space_ptr, m.handles 2, m.free_space)

defrag_moves : (defrag ascending 100 small >>= λ m. ok (summary m)) ≡ ok (50, some 15, 8142)
unfolding defrag find_dirty skip_dirty slide move_block is_dirty block_size stats_increment
    check_canaries
defrag_moves = refl

alloc-Allocated_example : Returns (Allocated small blocks 20) (alloc 20 small)
alloc-Allocated_example = alloc-Allocated small-IsValid 20 1 (omega arith) refl (omega arith)

alloc-Failed_example : Returns (Failed small-IsValid 8113) (alloc 8113 small)
alloc-Failed_example = alloc-Failed small-IsValid 8113 (omega arith) (inl (omega arith))

free-release_example : Returns (λ m'. IsValid m' (release 2 blocks)) (free (pos 3) small)
unfolding is_dirty
free-release_example = free-release small-IsValid 2 (omega arith) refl

defrag-live_blocks_example : Returns (Packed blocks) (defrag ascending 100 small)
defrag-live_blocks_example =
    defrag-live_blocks ascending 100 (record { whole = λ to from b l. refl }) small-IsValid
      (omega arith)
