-- ===== src/Memory/Blocks/Release.antt =====
-- A block marked as dirty among the others.
use sapphire_os.Prelude.{
  ℕ, ◌+◌, ◌≡◌, true, none, some, List, [], ◌∷◌, arith, if◌then◌else◌, ◌==◌, update, Bool-cases, inl,
  inr,
}
use sapphire_os.Memory.{Block}
use sapphire_os.Memory.{block_size, is_dirty, set_dirty}
use sapphire_os.Memory.Blocks.{
  live, find, address, used_bytes, dirty_bytes, data_bytes, live_count, release, Tiles, Unique,
  AllGood,
}
use sapphire_os.Memory.Blocks.Laws.{block_size_pos, address-find, none-address, Tiles-update_below}

pub set_dirty_lem :
    (b : Block)
    → (is_dirty (set_dirty b) ≡ true)
      × (block_size (set_dirty b) ≡ block_size b)
      × ((set_dirty b).canary ≡ b.canary)
      × ((set_dirty b).handle ≡ b.handle)
unfolding set_dirty is_dirty block_size
set_dirty_lem b = (ground arith, ground arith, ground arith, ground arith)

pub Tiles-release :
    (f : ℕ → Block) (p : ℕ) (bs : List Block) (h q a : ℕ)
    → Tiles f p bs q
    → address p bs h ≡ some a
    → Tiles (update f a (set_dirty (f a))) p (release h bs) q
Tiles-release f p [] h q a t e = cc
Tiles-release f p (b ∷ bs) h q a t e = elim (Bool-cases (live b h)) [
  | inl hit ↦ rw hit (
    ground arith,
    Tiles-update_below f (set_dirty (f a)) a _ bs q
        (ground (arith, set_dirty_lem b, block_size_pos b)) (rw (set_dirty_lem b).1 t.1),
  )
  | inr miss ↦
      let e' : address (p + block_size b) bs h ≡ some a = ground arith in
      let bound = address-find f (p + block_size b) bs h q a t.1 e' in
      rw miss (
        ground (arith, bound, block_size_pos b),
        Tiles-release f (p + block_size b) bs h q a t.1 e',
      )
]

-- under the handle there is nothing left, and under the others what there was
pub find-release :
    (bs : List Block) (h i : ℕ)
    → Unique bs
    → find (release h bs) i ≡ (if h == i then none else find bs i)
find-release [] h i u = ground arith
find-release (b ∷ bs) h i u = ground (arith, find-release bs h i u.1, set_dirty_lem b, u.0)

pub address-release :
    (p : ℕ) (bs : List Block) (h i : ℕ)
    → Unique bs
    → address p (release h bs) i ≡ (if h == i then none else address p bs i)
address-release p [] h i u = ground arith
address-release p (b ∷ bs) h i u = ground (
  arith,
  address-release (p + block_size b) bs h i u.1,
  set_dirty_lem b,
  u.0,
  none-address (p + block_size b) bs b.handle,
)

pub Unique-release : (bs : List Block) (h : ℕ) → Unique bs → Unique (release h bs)
Unique-release [] h u = tt
Unique-release (b ∷ bs) h u = elim (Bool-cases (live b h)) [
  | inl hit ↦ rw hit ((λ clean. ground (arith, set_dirty_lem b)), u.1)
  | inr miss ↦ rw miss (
    (λ clean. rw (find-release bs h b.handle u.1, u.0 clean) (ground arith)),
    Unique-release bs h u.1,
  )
]

pub AllGood-release : (bs : List Block) (h : ℕ) → AllGood bs → AllGood (release h bs)
AllGood-release [] h g = tt
AllGood-release (b ∷ bs) h g = elim (Bool-cases (live b h)) [
  | inl hit ↦ rw hit (ground (arith, set_dirty_lem b, g.0), g.1)
  | inr miss ↦ rw miss (g.0, AllGood-release bs h g.1)
]

-- what each sum over the blocks loses
pub sums-release :
    (bs : List Block) (h : ℕ) (b : Block)
    → find bs h ≡ some b
    → (used_bytes (release h bs) + block_size b ≡ used_bytes bs)
      × (dirty_bytes (release h bs) ≡ dirty_bytes bs + block_size b)
      × (data_bytes (release h bs) + b.size ≡ data_bytes bs)
      × (live_count (release h bs) + 1 ≡ live_count bs)
sums-release [] h b e = cc
sums-release (c ∷ bs) h b e = ground (arith, sums-release bs h b, set_dirty_lem c)
