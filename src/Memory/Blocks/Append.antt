-- ===== src/Memory/Blocks/Append.antt =====
-- A block put behind the others.
use sapphire_os.Prelude.{◌+◌, ◌*◌, ◌≤◌, ◌≡◌, refl, ◌∙◌, false, none, List, [], ◌∷◌, ◌++◌, arith}
use sapphire_os.Memory.{Block, Memory, heap_size}
use sapphire_os.Memory.{block_size, is_dirty}
use sapphire_os.Memory.Blocks.{
  IsValid, find, total, used_bytes, dirty_bytes, data_bytes, live_count, Unique, IsGood, AllGood,
}
use sapphire_os.Memory.Blocks.Laws.{find-append_none, Tiles-end, total-used-dirty}

module _ (b : Block) where
  pub Unique-append :
      (bs : List Block) → Unique bs → find bs b.handle ≡ none → Unique (bs ++ b ∷ [])
  Unique-append [] u e = (λ _. refl, tt)
  Unique-append (c ∷ bs) u e = (
    λ clean. find-append_none bs (b ∷ []) c.handle (u.0 clean) ∙ ground (arith, u.0 clean),
    Unique-append bs u.1 (ground arith),
  )

  pub AllGood-append : (bs : List Block) → AllGood bs → IsGood b → AllGood (bs ++ b ∷ [])
  AllGood-append [] g h = (h, tt)
  AllGood-append (c ∷ bs) g h = (g.0, AllGood-append bs g.1 h)

  -- what each sum over the blocks gains
  pub sums-append :
      (bs : List Block)
      → is_dirty b ≡ false
      → (used_bytes (bs ++ b ∷ []) ≡ used_bytes bs + block_size b)
        × (dirty_bytes (bs ++ b ∷ []) ≡ dirty_bytes bs)
        × (data_bytes (bs ++ b ∷ []) ≡ data_bytes bs + b.size)
        × (live_count (bs ++ b ∷ []) ≡ live_count bs + 1)
  sums-append [] clean = ground arith
  sums-append (c ∷ bs) clean = ground (arith, sums-append bs clean)

  pub total-append : (bs : List Block) → total (bs ++ b ∷ []) ≡ total bs + block_size b
  total-append [] = omega arith
  total-append (c ∷ bs) = omega (arith, total-append bs)

-- the data in use is less than the blocks that hold it, and the count less still
pub data_bytes-le :
    (bs : List Block) → AllGood bs → data_bytes bs + 5 * live_count bs ≡ used_bytes bs
unfolding block_size
data_bytes-le [] g = refl
data_bytes-le (c ∷ bs) g = ground (arith, data_bytes-le bs g.1)

-- the bounds that keep the 16-bit counters from wrapping
pub space_bounds :
    {m : Memory} {bs : List Block}
    → IsValid m bs
    → (m.used_space + m.free_space ≤ heap_size)
      × (m.data_space ≤ m.used_space)
      × (m.handles_used ≤ m.used_space)
      × (m.used_space + m.dirty_space ≡ m.free_space_ptr)
space_bounds {m} {bs} v = omega (
  arith,
  Tiles-end m.block 0 bs m.free_space_ptr v.tiles,
  total-used-dirty bs,
  data_bytes-le bs v.good,
)
