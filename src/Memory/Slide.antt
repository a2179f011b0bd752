-- ===== src/Memory/Slide.antt =====
-- The loop of the defragmenter that moves blocks. Through it the heap holds the blocks `done` up to the pointer `dirty` and the blocks
-- `rest` from the pointer `clean` on.
use sapphire_os.Prelude.{
  ltb, leb, Bool-cases, Returns-bind, Returns-mono, Returns, ok, returns, ℕ, zero, suc, ◌+◌, ◌≤◌,
  ◌<◌, ◌≡◌, refl, sym, ap, ◌∙◌, inl, inr, true, false, Option, none, some, List, [], ◌∷◌, ◌++◌,
  arith,
}
use sapphire_os.Memory.{Block, Memory, max_handles, block_size, is_dirty}
use mathlib.Core.List.{append-nil, append_assoc}
use sapphire_os.Memory.Blocks.Live.{find-live_blocks, Unique-middle}
use sapphire_os.Memory.Collect.{Memcpy, skip_dirty, move_block, slide}
use sapphire_os.Memory.Blocks.{find, address, total, live_blocks, Tiles}
use sapphire_os.Memory.Blocks.{Unique}
use sapphire_os.Memory.Blocks.Laws.{
  or_else, Tiles-end, Tiles-append, Tiles-update_above, Tiles-update_below, address-append,
  block_size_pos, none-address,
}

-- the state of the outer loop: the heap up to `dirty`, the heap from `clean` on, and the table
pub record Sliding (m : Memory) (done rest : List Block) (clean dirty : ℕ) : Type 0 where
  pub packed : Tiles m.block 0 done dirty
  pub tail : Tiles m.block clean rest m.free_space_ptr
  pub order : dirty ≤ clean
  pub table :
      (h : ℕ) → h < max_handles → m.handles h ≡ or_else (address 0 done h) (address clean rest h)

-- a dirty block is passed over
pub Sliding-skip :
    {m : Memory} {done bs : List Block} {b : Block} {clean dirty : ℕ}
    → Sliding m done (b ∷ bs) clean dirty
    → is_dirty b ≡ true
    → Sliding m done bs (clean + block_size b) dirty
Sliding-skip s d = record {
  packed = s.packed;
  tail = s.tail.1;
  order = omega (arith, s.order);
  table = λ h l. ground (arith, s.table h l, d);
}

-- before the first dirty block, a block in use is where it should be
pub Sliding-keep :
    {m : Memory} {done bs : List Block} {b : Block} {p : ℕ}
    → Sliding m done (b ∷ bs) p p
    → is_dirty b ≡ false
    → Sliding m (done ++ b ∷ []) bs (p + block_size b) (p + block_size b)
Sliding-keep {m} {done} {bs} {b} {p} s c = record {
  packed = Tiles-append m.block 0 done (b ∷ []) p _ s.packed (s.tail.0, refl);
  tail = s.tail.1;
  order = omega arith;
  table = λ h l. ground (
    arith,
    s.table h l,
    c,
    address-append 0 done (b ∷ []) h,
    Tiles-end m.block 0 done p s.packed,
  );
}

-- A `memcpy` that copies from the lowest byte up, so that a block arrives whole at a lower address,
-- also where the two places overlap. The C standard promises this only where they do not.
pub record CopiesUp (memcpy : Memcpy) : Type 0 where
  pub whole : (to from : ℕ) (b : Block) → to ≤ from → memcpy to from b ≡ b

-- a copy that keeps every block
abbrev keep : Memcpy
keep to from b = b

move_block-keep :
    (memcpy : Memcpy)
    → CopiesUp memcpy
    → (m : Memory) (clean dirty : ℕ) → dirty ≤ clean
    → move_block memcpy m clean dirty ≡ move_block keep m clean dirty
unfolding move_block
move_block-keep memcpy up m clean dirty order =
    rw (move_block, up.whole dirty clean (m.block clean) order) refl

-- a block in use is moved down behind those that were moved before
Sliding-move :
    {m : Memory} {done bs : List Block} {b : Block} {clean dirty : ℕ}
    → Sliding m done (b ∷ bs) clean dirty
    → find done b.handle ≡ none
    → find bs b.handle ≡ none
    → is_dirty b ≡ false
    → Sliding
        (move_block keep m clean dirty)
        (done ++ b ∷ [])
        bs
        (clean + block_size b)
        (dirty + block_size b)
unfolding move_block
Sliding-move {m} {done} {bs} {b} {clean} {dirty} s fresh last c =
    let at : m.block clean ≡ b = s.tail.0 in
    record {
      packed =
          Tiles-append _ 0 done (b ∷ []) dirty _
            (Tiles-update_above m.block (m.block clean) dirty 0 done dirty (omega arith) s.packed)
            (ground arith, refl);
      tail =
          Tiles-update_below m.block (m.block clean) dirty _ bs m.free_space_ptr
            (omega (arith, s.order, block_size_pos b)) s.tail.1;
      order = omega (arith, s.order);
      table = λ h l. ground (
        arith,
        s.table h l,
        c,
        at,
        address-append 0 done (b ∷ []) h,
        Tiles-end m.block 0 done dirty s.packed,
        none-address 0 done b.handle fresh,
      );
    }

-- `skip_dirty` ends at the first block in use of `rest`, with the blocks behind it, or past the end
abbrev Skipped : Memory → List Block → List Block → ℕ → Option ℕ → Type 0
Skipped m done rest dirty none = (live_blocks rest ≡ []) × Sliding m done [] m.free_space_ptr dirty
Skipped m done rest dirty (some c) =
    (b : Block) × (bs : List Block) × (is_dirty b ≡ false)
    × (live_blocks rest ≡ b ∷ live_blocks bs)
    × Sliding m done (b ∷ bs) c dirty
    × (total bs + block_size b ≤ total rest)

module _ (m : Memory) (done : List Block) (dirty : ℕ) where
  Skipped-cons :
      (b : Block) (rest : List Block)
      → is_dirty b ≡ true
      → (found : Option ℕ) → Skipped m done rest dirty found
      → Skipped m done (b ∷ rest) dirty found
  Skipped-cons b rest d none p = (rw d p.0, p.1)
  Skipped-cons b rest d (some c) (b', bs, e, l, s, t) = (b', bs, e, rw d l, s, omega arith)

  -- one round past a dirty block, given the rounds that follow
  skip_dirty-rest :
      (k clean : ℕ) (b : Block) (bs : List Block)
      → Sliding m done (b ∷ bs) clean dirty
      → is_dirty b ≡ true
      → ((c : Block) (cs : List Block)
          → bs ≡ c ∷ cs
          → Returns (Skipped m done bs dirty) (skip_dirty k m (clean + block_size (m.block clean))))
      → Returns
          (Skipped m done (b ∷ bs) dirty)
          (elim (leb m.free_space_ptr (clean + block_size (m.block clean))) [
            | true ↦ ok none
            | false ↦ skip_dirty k m (clean + block_size (m.block clean))
          ])
  skip_dirty-rest k clean b [] s d rec =
      let end : leb m.free_space_ptr (clean + block_size (m.block clean)) ≡ true =
        ground (arith, s.tail) in
      rw end (returns (rw d, rw s.tail.1 at (Sliding-skip s d)))
  skip_dirty-rest k clean b (c ∷ cs) s d rec =
      let end : leb m.free_space_ptr (clean + block_size (m.block clean)) ≡ false =
        ground (arith, Tiles-end m.block _ (c ∷ cs) m.free_space_ptr s.tail.1, block_size_pos c) in
      rw end (Returns-mono (rec c cs refl) (Skipped-cons b (c ∷ cs) d))

  skip_dirty-Skipped :
      (k clean : ℕ) (b : Block) (bs : List Block)
      → Sliding m done (b ∷ bs) clean dirty
      → total (b ∷ bs) < k
      → Returns (Skipped m done (b ∷ bs) dirty) (skip_dirty k m clean)
  unfolding skip_dirty
  skip_dirty-Skipped zero clean b bs s f = absurd (omega arith)
  skip_dirty-Skipped (suc k) clean b bs s f = elim (Bool-cases (is_dirty b)) [
    | inr c ↦ rw (ap is_dirty s.tail.0 ∙ c, skip_dirty) (returns (b, bs, c, rw c, s, omega arith))
    | inl d ↦
        let f' : total bs < k = omega (arith, block_size_pos b) in
        rw (ap is_dirty s.tail.0 ∙ d, skip_dirty)
          (skip_dirty-rest k clean b bs s d λ c cs e.
            rw (e, ap block_size s.tail.0)
              (skip_dirty-Skipped k (clean + block_size b) c cs (rw e at (Sliding-skip s d))
                (rw e at f')))
  ]

-- what the outer loop ends with: the blocks `all` at the start of the heap and in the table
pub record Slid (m : Memory) (all : List Block) (out : Memory × ℕ) : Type 0 where
  pub packed : Tiles out.0.block 0 all out.1
  pub table : (h : ℕ) → h < max_handles → out.0.handles h ≡ address 0 all h
  pub same : out.0 ≡ record m { handles = out.0.handles; block = out.0.block }

Sliding-end :
    {m : Memory} {done all : List Block} {clean dirty : ℕ}
    → Sliding m done [] clean dirty
    → done ≡ all
    → Slid m all (m, dirty)
Sliding-end {m} {dirty} s e = record {
  packed = rw e at (s.packed);
  table = λ h l. ground (arith, s.table h l, e);
  same = refl;
}

module _ (memcpy : Memcpy) (up : CopiesUp memcpy) (all : List Block) (unique : Unique all)
    (skips : ℕ) where
  Slid-move :
      (m : Memory) (clean dirty : ℕ) (out : Memory × ℕ)
      → Slid (move_block keep m clean dirty) all out
      → Slid m all out
  unfolding move_block
  Slid-move m clean dirty out s = record { packed = s.packed; table = s.table; same = s.same }

  moved_block :
      (m : Memory) (c dirty : ℕ)
      → block_size ((move_block keep m c dirty).block dirty) ≡ block_size (m.block c)
  unfolding move_block
  moved_block m c dirty = ap block_size (ground arith)

  abbrev pub Slides : ℕ → Type 0
  Slides k =
      (m : Memory) (done rest : List Block) (clean dirty : ℕ)
      → Sliding m done rest clean dirty
      → done ++ live_blocks rest ≡ all
      → total rest < skips
      → total rest < k
      → Returns (Slid m all) (slide memcpy skips k m clean dirty)

  -- one round of the outer loop behind `skip_dirty`, given the rounds that follow
  slide-next :
      (k : ℕ) (m : Memory) (done rest : List Block) (dirty : ℕ) (found : Option ℕ)
      → Skipped m done rest dirty found
      → done ++ live_blocks rest ≡ all
      → total rest < skips
      → total rest < suc k
      → Slides k
      → Returns (Slid m all) (elim found [
        | none ↦ ok (m, dirty)
        | some c ↦
            let m' = move_block memcpy m c dirty in
            slide memcpy skips k m'
              (c + block_size (m.block c))
              (dirty + block_size (m'.block dirty))
      ])
  slide-next k m done rest dirty none (e, s) plan f g rec =
      returns (Sliding-end s (sym (append-nil done) ∙ ap (λ l. done ++ l) (sym e) ∙ plan))
  slide-next k m done rest dirty (some c) (b, bs, clean, e, s, t) plan f g rec =
      let plan' : done ++ b ∷ live_blocks bs ≡ all = ap (λ l. done ++ l) (sym e) ∙ plan in
      let apart = Unique-middle done b (live_blocks bs) clean (rw plan' unique) in
      let moved = Sliding-move s apart.0 (sym (find-live_blocks bs b.handle) ∙ apart.1) clean in
      rw (move_block-keep memcpy up m c dirty s.order) (
        Returns-mono
          (rw (moved_block m c dirty, ap block_size s.tail.0)
            (rec (move_block keep m c dirty) (done ++ b ∷ []) bs _ _ moved
              (append_assoc done (b ∷ []) (live_blocks bs) ∙ plan')
              (omega (arith, block_size_pos b)) (omega (arith, block_size_pos b))))
          (Slid-move m c dirty))

  pub slide-Slid : (k : ℕ) → Slides k
  unfolding slide
  slide-Slid zero m done rest clean dirty s plan f g = absurd (omega arith)
  slide-Slid (suc k) m done [] clean dirty s plan f g =
      let end : ltb clean m.free_space_ptr ≡ false = ground (arith, s.tail) in
      rw (end, slide) (returns (Sliding-end s (sym (append-nil done) ∙ plan)))
  slide-Slid (suc k) m done (b ∷ bs) clean dirty s plan f g =
      let more : ltb clean m.free_space_ptr ≡ true =
        ground
          (arith, Tiles-end m.block clean (b ∷ bs) m.free_space_ptr s.tail, block_size_pos b) in
      rw (more, slide)
        (Returns-bind (skip_dirty-Skipped m done dirty skips clean b bs s f)
          λ found p. slide-next k m done (b ∷ bs) dirty found p plan f g (slide-Slid k))
