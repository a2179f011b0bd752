-- ===== src/Memory/Blocks/Live.antt =====
-- The blocks in use among all the blocks.
use sapphire_os.Prelude.{
  ℕ, ◌≡◌, refl, false, none, some, List, [], ◌∷◌, ◌++◌, arith, Bool-cases, inl, inr, ◌∙◌,
}
use sapphire_os.Memory.{Block}
use sapphire_os.Memory.{is_dirty}
use sapphire_os.Memory.Blocks.{
  live, find, used_bytes, dirty_bytes, data_bytes, live_count, live_blocks, Unique, AllGood,
}

pub find-live_blocks : (bs : List Block) (h : ℕ) → find (live_blocks bs) h ≡ find bs h
find-live_blocks [] h = refl
find-live_blocks (b ∷ bs) h = ground (arith, find-live_blocks bs h)

pub Unique-live_blocks : (bs : List Block) → Unique bs → Unique (live_blocks bs)
Unique-live_blocks [] u = tt
Unique-live_blocks (b ∷ bs) u = elim (Bool-cases (is_dirty b)) [
  | inl d ↦ rw d (Unique-live_blocks bs u.1)
  | inr c ↦ rw c ((λ _. find-live_blocks bs b.handle ∙ u.0 c), Unique-live_blocks bs u.1)
]

pub AllGood-live_blocks : (bs : List Block) → AllGood bs → AllGood (live_blocks bs)
AllGood-live_blocks [] g = tt
AllGood-live_blocks (b ∷ bs) g = elim (Bool-cases (is_dirty b)) [
  | inl d ↦ rw d (AllGood-live_blocks bs g.1)
  | inr c ↦ rw c (g.0, AllGood-live_blocks bs g.1)
]

pub sums-live_blocks :
    (bs : List Block)
    → (used_bytes (live_blocks bs) ≡ used_bytes bs)
      × (dirty_bytes (live_blocks bs) ≡ 0)
      × (data_bytes (live_blocks bs) ≡ data_bytes bs)
      × (live_count (live_blocks bs) ≡ live_count bs)
sums-live_blocks [] = (refl, refl, refl, refl)
sums-live_blocks (b ∷ bs) = ground (arith, sums-live_blocks bs)

-- a block in use in the middle shares its handle with none on either side
pub Unique-middle :
    (bs : List Block) (b : Block) (cs : List Block)
    → is_dirty b ≡ false
    → Unique (bs ++ b ∷ cs)
    → (find bs b.handle ≡ none) × (find cs b.handle ≡ none)
Unique-middle [] b cs c u = (refl, u.0 c)
Unique-middle (d ∷ bs) b cs c u =
    let (l, r) = Unique-middle bs b cs c u.1 in
    (
      elim (Bool-cases (live d b.handle)) [
        | inl hit ↦
            let e : find (bs ++ b ∷ cs) b.handle ≡ none = ground (arith, u.0) in cc (found bs l, e)
        | inr miss ↦ rw miss l
      ],
      r,
    )
  where
    found : (xs : List Block) → find xs b.handle ≡ none → find (xs ++ b ∷ cs) b.handle ≡ some b
    found [] e = ground arith
    found (x ∷ xs) e = ground (arith, found xs)
