-- ===== src/Memory/Alloc.antt =====
-- `mem2_h_alloc`: when it succeeds, what it makes, and what it leaves alone.
use sapphire_os.Prelude.{
  ltb, leb, if◌then◌else◌, Bool-cases, Option-cases, update, minus_one, ℤ, add16, sub16, Returns,
  pos, returns, ℕ, zero, suc, ◌+◌, ◌^◌, ◌≤◌, ◌<◌, ◌≡◌, refl, sym, ap, ◌∙◌, ◌≢◌, ◌⊎◌, inl, inr, true,
  false, ◌||◌, Option, none, some, List, [], ◌∷◌, ◌++◌, arith,
}
use sapphire_os.System.{Kernel, stats_increment, set_warnings}
use sapphire_os.Memory.{
  Block, Memory, max_handles, heap_size, header_size, block_size, is_dirty, first_unused, new_block,
  init, alloc_failed, alloc_at, alloc,
}
use sapphire_os.Memory.Blocks.{find, address, IsGood, IsValid}
use sapphire_os.Memory.Blocks.Laws.{
  Tiles-end, Tiles-append, Tiles-update_above, address-append, none-address, address-none,
}
use sapphire_os.Memory.Blocks.Append.{space_bounds, Unique-append, AllGood-append, sums-append}

first_unused-some :
    (n i k : ℕ) (table : ℕ → Option ℕ)
    → i ≤ k
    → k < i + n
    → table k ≡ none
    → (h : ℕ) × (first_unused n i table ≡ some h) × (h < i + n) × (table h ≡ none)
unfolding first_unused
first_unused-some zero i k table a b e = absurd (omega arith)
first_unused-some (suc n) i k table a b e = elim (Option-cases (table i)) [
  | inl e' ↦ (i, rw (e', first_unused), omega arith, e')
  | inr (p, e') ↦
      let differ : i ≢ k = λ q. cc (ap table q) in
      let (h, f, lt, n') = first_unused-some n (i + 1) k table (omega arith) (omega arith) e in
      (h, rw (e', first_unused) f, omega arith, n')
]

first_unused-none :
    (n i : ℕ) (table : ℕ → Option ℕ)
    → ((k : ℕ) → i ≤ k → k < i + n → table k ≢ none)
    → first_unused n i table ≡ none
unfolding first_unused
first_unused-none zero i table used = refl
first_unused-none (suc n) i table used = elim (Option-cases (table i)) [
  | inl e ↦ absurd (used i (omega arith) (omega arith) e)
  | inr (p, e) ↦
      rw (e, first_unused)
        (first_unused-none n (i + 1) table (λ k a b. used k (omega arith) (omega arith)))
]

-- what an allocation of `size` bytes in a memory that holds `bs` ends with
abbrev pub Allocated : Memory → List Block → ℕ → ℤ × Memory → Type 0
Allocated m bs size (handle, m') =
    (h : ℕ) × (handle ≡ pos (suc h))
    × (h < max_handles)
    × (find bs h ≡ none)
    × IsValid m' (bs ++ new_block size h (m.block m.free_space_ptr) ∷ [])

new_block-IsGood :
    (size h : ℕ) (old : Block)
    → size ≤ heap_size
    → h < max_handles
    → IsGood (new_block size h old)
      × (is_dirty (new_block size h old) ≡ false)
      × (block_size (new_block size h old) ≡ size + 5)
      × ((new_block size h old).size ≡ size)
      × ((new_block size h old).handle ≡ h)
unfolding new_block is_dirty block_size
new_block-IsGood size h old s l = (ground arith, ground arith, ground arith, refl, refl)

module _ {m : Memory} {bs : List Block} (v : IsValid m bs) (size h : ℕ) (lt : h < max_handles)
    (unused : m.handles h ≡ none) (fits : size + 5 ≤ m.free_space) where
  find-unused : find bs h ≡ none
  find-unused = address-none 0 bs h (sym (v.table h lt) ∙ unused)

  abbrev added : Block
  added = new_block size h (m.block m.free_space_ptr)

  -- the memory that `alloc_at` leaves
  abbrev grown : Kernel → Memory
  grown k = record m {
    handles = update m.handles h (some m.free_space_ptr);
    block = update m.block m.free_space_ptr added;
    handles_used = add16 m.handles_used 1;
    data_space = add16 m.data_space size;
    free_space_ptr = m.free_space_ptr + block_size added;
    free_space = sub16 m.free_space (block_size added);
    used_space = add16 m.used_space (block_size added);
    peak_usage =
        if ltb m.peak_usage (add16 m.used_space (block_size added))
        then add16 m.used_space (block_size added)
        else m.peak_usage;
    kernel = k;
  }

  grown-table :
      (k : Kernel) (i : ℕ) → i < max_handles → (grown k).handles i ≡ address 0 (bs ++ added ∷ []) i
  unfolding new_block
  grown-table k i l = ground (
    arith,
    address-append 0 bs (added ∷ []) i,
    v.table i l,
    none-address 0 bs h find-unused,
    Tiles-end m.block 0 bs m.free_space_ptr v.tiles,
    new_block-IsGood size h (m.block m.free_space_ptr) (omega (arith, space_bounds v)) lt,
  )

  grown-IsValid : (k : Kernel) → IsValid (grown k) (bs ++ added ∷ [])
  grown-IsValid k =
      let g =
        new_block-IsGood size h (m.block m.free_space_ptr) (omega (arith, space_bounds v)) lt in
      let sums = sums-append added bs g.1 in
      record {
        tiles =
            Tiles-append (grown k).block 0 bs (added ∷ []) m.free_space_ptr _
              (Tiles-update_above m.block added m.free_space_ptr 0 bs m.free_space_ptr (omega arith)
                v.tiles)
              (ground arith, refl);
        table = grown-table k;
        unique = Unique-append added bs v.unique (ap (find bs) g.4 ∙ find-unused);
        good = AllGood-append added bs v.good g.0;
        used = omega (arith, space_bounds v, sums);
        dirty = omega (arith, sums);
        contents = omega (arith, space_bounds v, sums, g);
        count = omega (arith, space_bounds v, sums);
        whole = omega (arith, g, space_bounds v);
      }

  alloc_at-Allocated : Returns (Allocated m bs size) (alloc_at size h m)
  unfolding alloc_at stats_increment
  alloc_at-Allocated =
      let bound : leb (sub16 m.free_space (block_size added)) heap_size ≡ true = ground (
        arith,
        space_bounds v,
        new_block-IsGood size h (m.block m.free_space_ptr) (omega (arith, space_bounds v)) lt,
      ) in
      rw bound (returns (h, refl, lt, find-unused, grown-IsValid _))

module _ {m : Memory} {bs : List Block} (v : IsValid m bs) (size : ℕ) where
  -- With room for the block and an unused handle, `mem2_h_alloc` returns an unused handle and puts
  -- a block of that size for it behind the others, which stay as they are; the invariant holds.
  pub alloc-Allocated :
      (i : ℕ)
      → i < max_handles
      → m.handles i ≡ none
      → size + 5 ≤ m.free_space
      → Returns (Allocated m bs size) (alloc size m)
  unfolding alloc
  alloc-Allocated i l e fits =
      let (h, found, lt, unused) = first_unused-some max_handles 0 i m.handles (omega arith) l e in
      let small : ltb heap_size size ≡ false = ground (arith, space_bounds v) in
      let room : ltb m.free_space (add16 (size + header_size) 1) ≡ false =
        ground (arith, space_bounds v) in
      rw (small, room, found) (alloc_at-Allocated v size h lt unused fits)

  abbrev pub Failed : ℤ × Memory → Type 0
  Failed (handle, m') =
      (handle ≡ minus_one) × (m' ≡ record m { kernel = m'.kernel }) × IsValid m' bs

  alloc_failed-Failed : Returns Failed (alloc_failed m)
  unfolding alloc_failed stats_increment set_warnings
  alloc_failed-Failed = returns (
    refl,
    refl,
    record {
      tiles = v.tiles;
      table = v.table;
      unique = v.unique;
      good = v.good;
      used = v.used;
      dirty = v.dirty;
      contents = v.contents;
      count = v.count;
      whole = v.whole;
    },
  )

  -- Without room, or with every handle in use, `mem2_h_alloc` returns -1; none of its own
  -- variables changes, and the invariant holds.
  pub alloc-Failed :
      size < 2 ^ 16
      → (m.free_space < size + 5) ⊎ ((h : ℕ) → h < max_handles → m.handles h ≢ none)
      → Returns Failed (alloc size m)
  unfolding alloc
  alloc-Failed l (inl full) = elim (Bool-cases (ltb heap_size size)) [
    | inl big ↦ rw big alloc_failed-Failed
    | inr small ↦
        let room : ltb m.free_space (add16 (size + header_size) 1) ≡ true =
          ground (arith, space_bounds v) in
        rw (small, room) alloc_failed-Failed
  ]
  alloc-Failed l (inr used) =
      elim (Bool-cases (ltb heap_size size || ltb m.free_space (add16 (size + header_size) 1))) [
        | inl big ↦ rw big alloc_failed-Failed
        | inr small ↦
            rw (small, first_unused-none max_handles 0 m.handles (λ k a b. used k b))
              alloc_failed-Failed
      ]

-- `mem2_v_init` makes an empty heap, whatever the variables held before.
pub init-IsValid : (m : Memory) → IsValid (init m) [] × ((init m).free_space ≡ heap_size)
unfolding init
init-IsValid m = (
  record {
    tiles = refl;
    table = λ h l. ground arith;
    unique = tt;
    good = tt;
    used = refl;
    dirty = refl;
    contents = refl;
    count = refl;
    whole = refl;
  },
  refl,
)
