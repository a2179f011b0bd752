-- ===== src/Memory/Blocks.antt =====
-- The heap as the list of its blocks in the order of their addresses: what the data structures of
-- src/memory.c stand for.
pub mod Laws
pub mod Append
pub mod Release
pub mod Live
use sapphire_os.Prelude.{
  ℕ, ◌+◌, ◌<◌, ◌≡◌, Bool, false, ◌&&◌, not, Option, none, some, List, [], ◌∷◌, if◌then◌else◌, ◌==◌,
}
use sapphire_os.Memory.{Block, Memory, max_handles, heap_size, canary_value, dirty_mask}
use sapphire_os.Memory.{block_size, is_dirty, set_dirty}

-- the block is in use under the handle
abbrev pub live : Block → ℕ → Bool
live b h = not (is_dirty b) && (b.handle == h)

-- the block in use under a handle
abbrev pub find : List Block → ℕ → Option Block
find [] h = none
find (b ∷ bs) h = if live b h then some b else find bs h

-- its address, if the blocks start at `p`
abbrev pub address : ℕ → List Block → ℕ → Option ℕ
address p [] h = none
address p (b ∷ bs) h = if live b h then some p else address (p + block_size b) bs h

abbrev pub total : List Block → ℕ
total [] = 0
total (b ∷ bs) = block_size b + total bs

abbrev pub used_bytes : List Block → ℕ
used_bytes [] = 0
used_bytes (b ∷ bs) = (if is_dirty b then 0 else block_size b) + used_bytes bs

abbrev pub dirty_bytes : List Block → ℕ
dirty_bytes [] = 0
dirty_bytes (b ∷ bs) = (if is_dirty b then block_size b else 0) + dirty_bytes bs

abbrev pub data_bytes : List Block → ℕ
data_bytes [] = 0
data_bytes (b ∷ bs) = (if is_dirty b then 0 else b.size) + data_bytes bs

abbrev pub live_count : List Block → ℕ
live_count [] = 0
live_count (b ∷ bs) = (if is_dirty b then 0 else 1) + live_count bs

-- the blocks in use, in order
abbrev pub live_blocks : List Block → List Block
live_blocks [] = []
live_blocks (b ∷ bs) = if is_dirty b then live_blocks bs else b ∷ live_blocks bs

-- the blocks after the one under the handle was released
abbrev pub release : ℕ → List Block → List Block
release h [] = []
release h (b ∷ bs) = if live b h then set_dirty b ∷ bs else b ∷ release h bs

-- the blocks lie one behind the other from `p` to `q`
abbrev pub Tiles : (ℕ → Block) → ℕ → List Block → ℕ → Type 0
Tiles f p [] q = p ≡ q
Tiles f p (b ∷ bs) q = (f p ≡ b) × Tiles f (p + block_size b) bs q

-- no two blocks in use have the same handle
abbrev pub Unique : List Block → Type 0
Unique [] = Unit
Unique (b ∷ bs) = (is_dirty b ≡ false → find bs b.handle ≡ none) × Unique bs

-- the block is whole: its canary is in place, and its size and its handle fit
pub record IsGood (b : Block) : Type 0 where
  pub canary : b.canary ≡ canary_value
  pub size : is_dirty b ≡ false → b.size < dirty_mask
  pub handle : b.handle < max_handles

abbrev pub AllGood : List Block → Type 0
AllGood [] = Unit
AllGood (b ∷ bs) = IsGood b × AllGood bs

-- The memory holds the blocks `bs`: they fill the used part of the heap, the table leads to exactly
-- those in use, and the counters agree with them.
pub record IsValid (m : Memory) (bs : List Block) : Type 0 where
  pub tiles : Tiles m.block 0 bs m.free_space_ptr
  pub table : (h : ℕ) → h < max_handles → m.handles h ≡ address 0 bs h
  pub unique : Unique bs
  pub good : AllGood bs
  pub used : m.used_space ≡ used_bytes bs
  pub dirty : m.dirty_space ≡ dirty_bytes bs
  pub contents : m.data_space ≡ data_bytes bs
  pub count : m.handles_used ≡ live_count bs
  pub whole : m.free_space + m.free_space_ptr ≡ heap_size
