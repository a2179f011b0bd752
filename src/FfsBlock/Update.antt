-- ===== src/FfsBlock/Update.antt =====
-- The functions of src/ffs_block.c that change a list.
use mathlib.Core.Path.{subst₃}
use sapphire_os.Prelude.{
  ◌==◌, lt→ltb, Bool-cases, update, length, minus_one, ℤ, Returns, pos, ok, returns, ℕ, suc, ◌≡◌,
  refl, sym, ap, ◌∙◌, inl, inr, true, false, List, [], ◌∷◌, arith,
}
use sapphire_os.FfsBlock.{
  ListName, Blocks, no_free_space, head, set_head, next_of, set_next, count_down, alloc, get_dirty,
}
use sapphire_os.FfsBlock.Chains.{has, Chain, Nodup, Chain-update}
use sapphire_os.FfsBlock.Counts.{
  Relinked, Counted, set_head-Relinked, count_down-Relinked, count_down-Counted, counts-set_head,
}
use sapphire_os.FfsBlock.Query.{length-lists}
use sapphire_os.FfsBlock.Layout.{same_list, put, IsValid, put-IsValid}

-- a block on one list is on no other
pub elsewhere :
    {s : Blocks} {lists : ListName → List ℕ} (name other : ListName) (a : ℕ)
    → IsValid s lists
    → has a (lists name) ≡ true
    → same_list name other ≡ false
    → has a (lists other) ≡ false
elsewhere {lists} name other a v h d = elim (Bool-cases (has a (lists other))) [
  | inl k ↦ absurd (cc (v.apart a name other h k, d))
  | inr k ↦ k
]

module _ {s : Blocks} {lists : ListName → List ℕ} (v : IsValid s lists) (name : ListName) where
  -- one list changed, with links and a head that make it a list of blocks that no other has
  pub relinked-IsValid :
      (h : ℤ) (links : ℕ → ℤ) (xs : List ℕ) (s' : Blocks)
      → Relinked name h links s s'
      → Counted s' (put name xs lists)
      → Chain s.total_blocks links h xs
      → Nodup xs
      → ((other : ListName)
          → same_list name other ≡ false
          → Chain s.total_blocks links (head other s) (lists other))
      → ((a : ℕ) (other : ListName)
          → has a xs ≡ true
          → same_list name other ≡ false
          → has a (lists other) ≡ false)
      → IsValid s' (put name xs lists)
  relinked-IsValid h links xs s' r counted chain nodup others fresh =
      put-IsValid s' name xs v r.total
        (subst₃ (λ n f i. Chain n f i xs) (sym r.total) (sym r.linked) (sym r.here) chain)
        (λ other e.
          subst₃ (λ n f i. Chain n f i (lists other)) (sym r.total) (sym r.linked)
            (sym (r.others other e)) (others other e))
        nodup fresh counted.0 counted.1

  -- the first block taken off a list
  popped-IsValid :
      (b : ℕ) (rest : List ℕ)
      → lists name ≡ b ∷ rest
      → IsValid
          (count_down name (record (set_head name (s.next_block b) s) {
            next_block = update s.next_block b minus_one;
          }))
          (put name rest lists)
  popped-IsValid b rest e =
      let c : Chain s.total_blocks s.next_block (head name s) (b ∷ rest) = rw e at (v.chain name) in
      let d : Nodup (b ∷ rest) = rw e at (v.nodup name) in
      let on : has b (lists name) ≡ true = rw e (ground arith) in
      relinked-IsValid (s.next_block b) (update s.next_block b minus_one) rest _
        (count_down-Relinked (set_head-Relinked name _ _ s))
        (count_down-Counted _ lists
          (
            (counts-set_head name _ s).0 ∙ v.free_count,
            (counts-set_head name _ s).1 ∙ v.dirty_count,
          )
          rest name (omega (arith, ap length e)) (omega (arith, length-lists v name, v.small)))
        (Chain-update s.total_blocks s.next_block b minus_one (s.next_block b) rest d.0 c.2) d.1
        (λ other f.
          Chain-update s.total_blocks s.next_block b minus_one (head other s) (lists other)
            (elsewhere name other b v on f) (v.chain other))
        (λ a other i f. elsewhere name other a v (rw e (ground (arith, i))) f)

module _ {s : Blocks} {lists : ListName → List ℕ} (v : IsValid s lists) where
  -- With no free block `ffs_block_i16_alloc` returns the status for no space, and with no dirty
  -- block `ffs_block_i16_get_dirty` returns -1; neither changes anything.
  pub take-nil :
      (lists ListName.free ≡ [] → alloc s ≡ ok (no_free_space, s))
      × (lists ListName.dirty ≡ [] → get_dirty s ≡ ok (minus_one, s))
  unfolding alloc get_dirty
  take-nil = (
    (λ e. let none' : s.free_blocks ≡ 0 = v.free_count ∙ ap length e in rw none'),
    λ e. let none' : s.dirty_blocks ≡ 0 = v.dirty_count ∙ ap length e in rw none',
  )

  -- With a free block, `ffs_block_i16_alloc` takes the first block off the list of free blocks:
  -- every other list stays as it is, and the invariant holds.
  pub alloc-cons :
      (b : ℕ) (rest : List ℕ)
      → lists ListName.free ≡ b ∷ rest
      → Returns (λ (r, s'). (r ≡ pos b) × IsValid s' (put ListName.free rest lists)) (alloc s)
  unfolding alloc next_of set_next head set_head count_down
  alloc-cons b rest e =
      let count : s.free_blocks ≡ suc (length rest) = v.free_count ∙ ap length e in
      let some' : (s.free_blocks == 0) ≡ false = ground arith in
      let c : Chain s.total_blocks s.next_block s.free_list (b ∷ rest) =
        rw e at (v.chain ListName.free) in
      rw (some', c.0, lt→ltb b s.total_blocks c.1)
        (returns (refl, popped-IsValid v ListName.free b rest e))

  -- With a dirty block, `ffs_block_i16_get_dirty` takes the first block off the list of dirty
  -- blocks: every other list stays as it is, and the invariant holds.
  pub get_dirty-cons :
      (b : ℕ) (rest : List ℕ)
      → lists ListName.dirty ≡ b ∷ rest
      → Returns (λ (r, s'). (r ≡ pos b) × IsValid s' (put ListName.dirty rest lists)) (get_dirty s)
  unfolding get_dirty next_of set_next head set_head count_down
  get_dirty-cons b rest e =
      let count : s.dirty_blocks ≡ suc (length rest) = v.dirty_count ∙ ap length e in
      let some' : (s.dirty_blocks == 0) ≡ false = ground arith in
      let c : Chain s.total_blocks s.next_block s.dirty_list (b ∷ rest) =
        rw e at (v.chain ListName.dirty) in
      rw (some', c.0, lt→ltb b s.total_blocks c.1)
        (returns (refl, popped-IsValid v ListName.dirty b rest e))
