-- ===== src/Memory/Free.antt =====
-- `mem2_v_free`, `mem2_b_verify_handle`, `mem2_u16_get_size`: what they do with a handle in use, and
-- with one that is not.
use sapphire_os.Prelude.{
  lt→ltb, Option-cases, update, add16, sub16, Returns, pos, ok, assert_failed, returns, ℕ, suc, ◌+◌,
  ◌≤◌, ◌<◌, ◌≡◌, ap, ◌∙◌, inl, inr, true, false, none, some, List, arith,
}
use sapphire_os.System.{Kernel, stats_increment, set_error}
use sapphire_os.Memory.{
  Block, Memory, max_handles, block_size, set_dirty, handle_at, verify_handle, verify_block, verify,
  release_block, release_at, free, get_size,
}
use sapphire_os.Memory.Blocks.{find, address, release, IsValid}
use sapphire_os.Memory.Blocks.Laws.{address-find, address-none, none-address, find-IsGood}
use sapphire_os.Memory.Blocks.Append.{space_bounds}
use sapphire_os.Memory.Blocks.Release.{
  set_dirty_lem, Tiles-release, address-release, Unique-release, AllGood-release, sums-release,
}

module _ {m : Memory} {bs : List Block} (v : IsValid m bs) (h : ℕ) (lt : h < max_handles) where
  -- where the block of a handle in use lies
  pub entry :
      {b : Block}
      → find bs h ≡ some b
      → (p : ℕ) × (m.handles h ≡ some p)
        × (m.block p ≡ b)
        × (address 0 bs h ≡ some p)
        × (p + block_size b ≤ m.free_space_ptr)
  entry {b} e = elim (Option-cases (address 0 bs h)) [
    | inl none' ↦ absurd (cc (address-none 0 bs h none'))
    | inr (p, e') ↦
        let at = address-find m.block 0 bs h m.free_space_ptr p v.tiles e' in
        (p, v.table h lt ∙ e', ground arith, e', ground arith)
  ]

  -- a handle that is not in use is a null entry
  pub no_entry : find bs h ≡ none → m.handles h ≡ none
  no_entry e = v.table h lt ∙ none-address 0 bs h e

  module _ {b : Block} (e : find bs h ≡ some b) where
    pub verify_handle-ok : verify_handle (pos h) m ≡ ok tt
    unfolding verify_handle handle_at
    verify_handle-ok =
        let (p, at, is, _, _) = entry e in
        let g = find-IsGood bs h b v.good e in ground (arith, at, is, g)

    -- the memory that `release_block` leaves
    abbrev shrunk : ℕ → Kernel → Memory
    shrunk p k = record m {
      handles = update m.handles h none;
      handles_used = sub16 m.handles_used 1;
      data_space = sub16 m.data_space (m.block p).size;
      block = update m.block p (set_dirty (m.block p));
      dirty_space = add16 m.dirty_space (block_size (set_dirty (m.block p)));
      used_space = sub16 m.used_space (block_size (set_dirty (m.block p)));
      kernel = k;
    }

    shrunk-IsValid :
        (p : ℕ) (k : Kernel)
        → m.block p ≡ b
        → address 0 bs h ≡ some p
        → IsValid (shrunk p k) (release h bs)
    shrunk-IsValid p k is at =
        let sums = sums-release bs h b e in
        let d = set_dirty_lem (m.block p) in
        let g = find-IsGood bs h b v.good e in
        let same : block_size (m.block p) ≡ block_size b = ap block_size is in
        let size : (m.block p).size ≡ b.size = ap (λ (c : Block). c.size) is in
        record {
          tiles = Tiles-release m.block 0 bs h m.free_space_ptr p v.tiles at;
          table = λ i l. ground (arith, address-release 0 bs h i v.unique, v.table i l);
          unique = Unique-release bs h v.unique;
          good = AllGood-release bs h v.good;
          used = omega (arith, sums, d, same, space_bounds v);
          dirty = omega (arith, sums, d, same, space_bounds v);
          contents = omega (arith, sums, size, space_bounds v);
          count = omega (arith, sums, space_bounds v);
          whole = v.whole;
        }

    -- `mem2_v_free` of a handle in use takes its block out of use: the invariant holds with the
    -- block marked as dirty, and no ASSERT fails.
    pub free-release : Returns (λ m'. IsValid m' (release h bs)) (free (pos (suc h)) m)
    unfolding free release_at handle_at release_block stats_increment
    free-release =
        let (p, at, is, where', _) = entry e in
        rw (verify_handle-ok, lt→ltb _ _ lt, at) (returns (shrunk-IsValid p _ is where'))

    -- `mem2_u16_get_size` of a handle in use is the size that its block was made with.
    pub get_size-eq : get_size (pos (suc h)) m ≡ ok b.size
    unfolding get_size handle_at
    get_size-eq =
        let (p, at, is, _, _) = entry e in
        rw (verify_handle-ok, lt→ltb _ _ lt, at) (ap (λ (c : Block). ok c.size) is)

-- `mem2_b_verify_handle` of any handle that an allocation can return is the test that the handle is in
-- use; a handle that is not sets the error SYS_ERR_HANDLE_UNALLOCATED.
pub verify-find :
    {m : Memory} {bs : List Block} (v : IsValid m bs) (h : ℕ)
    → h < max_handles
    → verify (pos (suc h)) m ≡ elim (find bs h) [
      | none ↦ ok (false, record m { kernel = set_error 2 m.kernel })
      | some b ↦ ok (true, m)
    ]
unfolding verify verify_block handle_at
verify-find {m} {bs} v h lt = elim (Option-cases (find bs h)) [
  | inl e ↦ rw (e, lt→ltb _ _ lt, no_entry v h lt e)
  | inr (b, e) ↦
      let (p, at, is, _, _) = entry v h lt e in
      let g = find-IsGood bs h b v.good e in rw (e, lt→ltb _ _ lt, at, is) (ground (arith, g))
]

-- `mem2_v_free` of a handle that an allocation can return and that is not in use fails an ASSERT,
-- so no block is released twice.
pub free-unused :
    {m : Memory} {bs : List Block} (v : IsValid m bs) (h : ℕ)
    → h < max_handles
    → find bs h ≡ none
    → free (pos (suc h)) m ≡ assert_failed
unfolding free verify_handle handle_at
free-unused v h lt e = rw (lt→ltb _ _ lt, no_entry v h lt e)
