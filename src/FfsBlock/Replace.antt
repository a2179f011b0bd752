-- ===== src/FfsBlock/Replace.antt =====
-- `ffs_block_v_replace_in_list` of src/ffs_block.c.
use sapphire_os.Prelude.{
  ltb, ◌==◌, lt→ltb, ==→eq, Bool-cases, update, length, List-cases, ℤ, Returns, pos, ok, returns, ℕ,
  ◌<◌, ◌≡◌, refl, ap, ◌∙◌, inl, inr, true, false, List, ◌∷◌, arith,
}
use sapphire_os.FfsBlock.{
  ListName, Blocks, head, set_head, below_total, next_of, set_next, rounds, prev_block,
  replace_in_list,
}
use sapphire_os.FfsBlock.Chains.{has, Chain, Chain-AllBelow, Chain-update}
use sapphire_os.FfsBlock.Walks.{before, prev_block-before}
use sapphire_os.FfsBlock.Members.{
  has-before, before_ne_self, has→lt, replace, has-replace→, Nodup-replace, length-replace,
}
use sapphire_os.FfsBlock.Links.{Chain-replace}
use sapphire_os.FfsBlock.Counts.{
  Relinked, set_head-Relinked, next_block-Relinked, total-set_head, next-set_head, put-Counted,
  counts-set_head,
}
use sapphire_os.FfsBlock.Query.{length-lists}
use sapphire_os.FfsBlock.Layout.{same_list, put, IsValid}
use sapphire_os.FfsBlock.Update.{elsewhere, relinked-IsValid}

-- what takes the place of a block has no list of its own
module _ {s : Blocks} {lists : ListName → List ℕ} (v : IsValid s lists) (name : ListName)
    (old new : ℕ) (k : old < s.total_blocks) (l : new < s.total_blocks)
    (on : has old (lists name) ≡ true)
    (out : (other : ListName) → has new (lists other) ≡ false) where
  fresh_new :
      (a : ℕ) (other : ListName)
      → has a (replace old new (lists name)) ≡ true
      → same_list name other ≡ false
      → has a (lists other) ≡ false
  fresh_new a other i f = elim (Bool-cases (a == new)) [
    | inl e ↦ rw (==→eq a new e) (out other)
    | inr e ↦ elsewhere name other a v (ground (arith, has-replace→ a old new (lists name) i)) f
  ]

  replaced :
      (h : ℤ) (links : ℕ → ℤ) (s' : Blocks)
      → Relinked name h links s s'
      → (s'.free_blocks ≡ s.free_blocks) × (s'.dirty_blocks ≡ s.dirty_blocks)
      → Chain s.total_blocks links h (replace old new (lists name))
      → ((other : ListName)
          → same_list name other ≡ false
          → Chain s.total_blocks links (head other s) (lists other))
      → IsValid s' (put name (replace old new (lists name)) lists)
  replaced h links s' r same chain others =
      relinked-IsValid v name h links (replace old new (lists name)) s' r
        (put-Counted s' lists (same.0 ∙ v.free_count, same.1 ∙ v.dirty_count)
          (replace old new (lists name)) name (length-replace old new (lists name)))
        chain (Nodup-replace old new (lists name) (v.nodup name) (out name)) others fresh_new

  others_new :
      (links : ℕ → ℤ) (value : ℤ) (other : ListName)
      → Chain s.total_blocks links (head other s) (lists other)
      → Chain s.total_blocks (update links new value) (head other s) (lists other)
  others_new links value other c =
      Chain-update s.total_blocks links new value (head other s) (lists other) (out other) c

  replace-first :
      (xs : List ℕ)
      → lists name ≡ old ∷ xs
      → Returns
          (λ s'. IsValid s' (put name (replace old new (lists name)) lists))
          (replace_in_list name (pos old) (pos new) s)
  unfolding replace_in_list below_total next_of set_next
  replace-first xs e =
      let c : Chain s.total_blocks s.next_block (head name s) (old ∷ xs) = rw e at (v.chain name) in
      let same : (old == old) ≡ true = ground arith in
      let changed : replace old new (lists name) ≡ new ∷ xs = rw (e, same) in
      let at : update s.next_block new (s.next_block old) new ≡ s.next_block old = ground arith in
      let d : has new (old ∷ xs) ≡ false = rw e at (out name) in
      let at_old : ltb old (set_head name (pos new) s).total_blocks ≡ true =
        rw (total-set_head name (pos new) s) (lt→ltb old s.total_blocks k) in
      let at_new : ltb new (set_head name (pos new) s).total_blocks ≡ true =
        rw (total-set_head name (pos new) s) (lt→ltb new s.total_blocks l) in
      rw
        (
          lt→ltb old s.total_blocks k,
          lt→ltb new s.total_blocks l,
          c.0,
          same,
          at_old,
          next-set_head name (pos new) s,
          at_new,
        )
        (returns (
          replaced (pos new) (update s.next_block new (s.next_block old)) _
            (set_head-Relinked name (pos new) (update s.next_block new (s.next_block old)) s)
            (counts-set_head name (pos new) s)
            (rw changed (
              refl,
              l,
              rw at (
                  Chain-update s.total_blocks s.next_block new (s.next_block old) (s.next_block old)
                    xs (ground arith) c.2),
            ))
            (λ other f. others_new s.next_block (s.next_block old) other (v.chain other))))

  replace-later :
      (x : ℕ) (xs : List ℕ)
      → lists name ≡ x ∷ xs
      → (x == old) ≡ false
      → Returns
          (λ s'. IsValid s' (put name (replace old new (lists name)) lists))
          (replace_in_list name (pos old) (pos new) s)
  unfolding replace_in_list below_total next_of set_next
  replace-later x xs e d =
      let c : Chain s.total_blocks s.next_block (head name s) (x ∷ xs) = rw e at (v.chain name) in
      let i : has old xs ≡ true = ground (arith, rw e at on) in
      let p = before old x xs in
      let on' : has p (lists name) ≡ true = rw e (has-before old x xs) in
      let below : p < s.total_blocks =
        has→lt s.total_blocks p (x ∷ xs)
          (Chain-AllBelow s.total_blocks s.next_block (head name s) (x ∷ xs) c)
          (has-before old x xs) in
      let walk : prev_block (rounds s) (pos old) (pos x) s ≡ ok (pos p) =
        prev_block-before s (rounds s) old (pos x) x xs (refl, c.1, c.2) i
          (omega (arith, length-lists v name, ap length e)) in
      let changed : replace old new (lists name) ≡ x ∷ replace old new xs = rw (e, d) in
      let apart : (p == old) ≡ false = before_ne_self old x xs d in
      let links = update s.next_block p (pos new) in
      rw
        (
          lt→ltb old s.total_blocks k,
          lt→ltb new s.total_blocks l,
          c.0,
          d,
          walk,
          lt→ltb p s.total_blocks below,
          lt→ltb old s.total_blocks k,
          apart,
          lt→ltb new s.total_blocks l,
        )
        (returns (
          replaced (head name s) (update links new (s.next_block old)) _
            (next_block-Relinked name (update links new (s.next_block old)) s) (refl, refl)
            (rw changed (
              Chain-replace s.total_blocks s.next_block old new (head name s) x xs c
                (rw e at (v.nodup name)) i (rw e at (out name)) l))
            (λ other f. others_new links (s.next_block old) other (
              Chain-update s.total_blocks s.next_block p (pos new) (head other s) (lists other)
                (elsewhere name other p v on' f) (v.chain other)))))

  -- `ffs_block_v_replace_in_list`, for a block of the list and one that is on no list: the second takes
  -- the place of the first, no other list changes, and the invariant holds.
  pub replace_in_list-put :
      Returns
        (λ s'. IsValid s' (put name (replace old new (lists name)) lists))
        (replace_in_list name (pos old) (pos new) s)
  replace_in_list-put = elim (List-cases (lists name)) [
    | inl e ↦ absurd (cc (on, ap (has old) e))
    | inr (x, xs, e) ↦ elim (Bool-cases (x == old)) [
      | inl i ↦ replace-first xs (e ∙ ap (λ y. y ∷ xs) (==→eq x old i))
      | inr i ↦ replace-later x xs e i
    ]
  ]
