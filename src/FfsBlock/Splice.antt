-- ===== src/FfsBlock/Splice.antt =====
-- The functions of src/ffs_block.c that put a block on a list, take it off or exchange it.
use sapphire_os.Prelude.{
  ◌==◌, lt→ltb, ==→eq, Bool-cases, update, length, length-append, List-cases, minus_one, ℤ, Returns,
  pos, ok, returns, ℕ, ◌+◌, ◌<◌, ◌≡◌, refl, ap, ◌∙◌, inl, inr, true, false, List, [], ◌∷◌, ◌++◌,
  arith,
}
use sapphire_os.FfsBlock.{
  ListName, Blocks, head, set_head, below_total, next_of, set_next, count_up, count_down,
  last_block, rounds, add_to_list, prev_block, remove_from_list,
}
use sapphire_os.FfsBlock.Chains.{has, Chain, erase, Chain-AllBelow, Chain-update, Nodup-erase}
use sapphire_os.FfsBlock.Walks.{last, before, last_block-last, prev_block-before}
use sapphire_os.FfsBlock.Members.{
  has-last, has-before, has→lt, has-append, Nodup-append, has-erase→, length-erase-has,
}
use sapphire_os.FfsBlock.Links.{Chain-append, Chain-erase}
use sapphire_os.FfsBlock.Counts.{
  Relinked, head_links-Relinked, next_block-Relinked, head-next_block, count_up-Relinked,
  count_down-Relinked, count_up-Counted, count_down-Counted, counts-set_head,
}
use sapphire_os.FfsBlock.Query.{length-lists}
use sapphire_os.FfsBlock.Layout.{same_list, put, IsValid}
use sapphire_os.FfsBlock.Update.{elsewhere, relinked-IsValid}

module _ {s : Blocks} {lists : ListName → List ℕ} (v : IsValid s lists) (name : ListName) (b : ℕ)
    (l : b < s.total_blocks) where
  module _ (out : (other : ListName) → has b (lists other) ≡ false) where
    cut : ℕ → ℤ
    cut = update s.next_block b minus_one

    others_cut : (other : ListName) → Chain s.total_blocks cut (head other s) (lists other)
    unfolding cut
    others_cut other =
        Chain-update s.total_blocks s.next_block b minus_one (head other s) (lists other)
          (out other) (v.chain other)

    fresh :
        (a : ℕ) (other : ListName)
        → has a (lists name ++ b ∷ []) ≡ true
        → same_list name other ≡ false
        → has a (lists other) ≡ false
    fresh a other i f = elim (Bool-cases (has a (lists name))) [
      | inl h ↦ elsewhere name other a v h f
      | inr h ↦
          let e : a ≡ b = ==→eq a b (ground (arith, has-append a b (lists name))) in
          rw e (out other)
    ]

    length_add : length (lists name ++ b ∷ []) ≡ length (lists name) + 1
    length_add = length-append (lists name) (b ∷ [])

    added :
        (h : ℤ) (links : ℕ → ℤ) (s' : Blocks)
        → Relinked name h links s s'
        → (s'.free_blocks ≡ s.free_blocks) × (s'.dirty_blocks ≡ s.dirty_blocks)
        → Chain s.total_blocks links h (lists name ++ b ∷ [])
        → ((other : ListName)
            → same_list name other ≡ false
            → Chain s.total_blocks links (head other s) (lists other))
        → IsValid (count_up name s') (put name (lists name ++ b ∷ []) lists)
    added h links s' r same chain others =
        relinked-IsValid v name h links (lists name ++ b ∷ []) (count_up name s')
          (count_up-Relinked r)
          (count_up-Counted s' lists (same.0 ∙ v.free_count, same.1 ∙ v.dirty_count)
            (lists name ++ b ∷ []) name length_add (omega (arith, length-lists v name, v.small)))
          chain (Nodup-append b (lists name) (v.nodup name) (out name)) others fresh

    add-nil :
        lists name ≡ []
        → Returns
            (λ s'. IsValid s' (put name (lists name ++ b ∷ []) lists))
            (add_to_list name (pos b) s)
    unfolding add_to_list set_next cut
    add-nil e =
        let t : Blocks = record s { next_block = cut } in
        let empty : head name t ≡ minus_one = head-next_block name cut s ∙ rw e at (v.chain name) in
        rw (lt→ltb b s.total_blocks l, empty)
          (returns (
            added (pos b) cut (set_head name (pos b) t) (head_links-Relinked name (pos b) cut s)
              (counts-set_head name (pos b) t) (rw e (refl, l, ground arith))
              (λ other f. others_cut other)))

    add-cons :
        (x : ℕ) (xs : List ℕ)
        → lists name ≡ x ∷ xs
        → Returns
            (λ s'. IsValid s' (put name (lists name ++ b ∷ []) lists))
            (add_to_list name (pos b) s)
    unfolding add_to_list set_next below_total cut
    add-cons x xs e =
        let t : Blocks = record s { next_block = cut } in
        let c : Chain s.total_blocks cut (head name s) (x ∷ xs) = rw e at (others_cut name) in
        let at : head name t ≡ pos x = head-next_block name cut s ∙ c.0 in
        let on : has (last x xs) (lists name) ≡ true = rw e (has-last x xs) in
        let below : last x xs < s.total_blocks =
          has→lt s.total_blocks (last x xs) (x ∷ xs)
            (Chain-AllBelow s.total_blocks cut (head name s) (x ∷ xs) c) (has-last x xs) in
        let walk : last_block (rounds t) (pos x) t ≡ ok (pos (last x xs)) =
          last_block-last t (rounds t) (pos x) x xs (refl, c.1, c.2)
            (omega (arith, length-lists v name, ap length e)) in
        let inside : below_total (pos b) t ≡ true = lt→ltb b s.total_blocks l in
        rw (lt→ltb b s.total_blocks l, at, inside, walk, lt→ltb (last x xs) s.total_blocks below)
          (returns (
            added (head name s) (update cut (last x xs) (pos b)) _
              (next_block-Relinked name (update cut (last x xs) (pos b)) s) (refl, refl)
              (rw e (
                Chain-append s.total_blocks cut b (head name s) x xs c (rw e at (v.nodup name)) l
                  (ground arith) (rw e at (out name))))
              (λ other f.
                Chain-update s.total_blocks cut (last x xs) (pos b) (head other s) (lists other)
                  (elsewhere name other (last x xs) v on f) (others_cut other))))

    -- `ffs_block_v_add_to_list`, for a block that is on no list: the block comes last on the list, no
    -- other list changes, and the invariant holds.
    pub add_to_list-put :
        Returns
          (λ s'. IsValid s' (put name (lists name ++ b ∷ []) lists))
          (add_to_list name (pos b) s)
    add_to_list-put = elim (List-cases (lists name)) [
      | inl e ↦ add-nil e
      | inr (x, xs, e) ↦ add-cons x xs e
    ]

  module _ (on : has b (lists name) ≡ true) where
    removed :
        (h : ℤ) (links : ℕ → ℤ) (s' : Blocks)
        → Relinked name h links s s'
        → (s'.free_blocks ≡ s.free_blocks) × (s'.dirty_blocks ≡ s.dirty_blocks)
        → Chain s.total_blocks links h (erase b (lists name))
        → ((other : ListName)
            → same_list name other ≡ false
            → Chain s.total_blocks links (head other s) (lists other))
        → IsValid (count_down name s') (put name (erase b (lists name)) lists)
    removed h links s' r same chain others =
        relinked-IsValid v name h links (erase b (lists name)) (count_down name s')
          (count_down-Relinked r)
          (count_down-Counted s' lists (same.0 ∙ v.free_count, same.1 ∙ v.dirty_count)
            (erase b (lists name)) name (length-erase-has b (lists name) on)
            (omega (arith, length-lists v name, v.small)))
          chain (Nodup-erase b (lists name) (v.nodup name)) others
          (λ a other i f. elsewhere name other a v (has-erase→ a b (lists name) i) f)

    remove-first :
        (xs : List ℕ)
        → lists name ≡ b ∷ xs
        → Returns
            (λ s'. IsValid s' (put name (erase b (lists name)) lists))
            (remove_from_list name (pos b) s)
    unfolding remove_from_list below_total next_of
    remove-first xs e =
        let c : Chain s.total_blocks s.next_block (head name s) (b ∷ xs) = rw e at (v.chain name) in
        let same : (b == b) ≡ true = ground arith in
        let less : erase b (lists name) ≡ xs = rw (e, same) in
        rw (lt→ltb b s.total_blocks l, c.0, same)
          (returns (
            removed (s.next_block b) s.next_block (set_head name (s.next_block b) s)
              (head_links-Relinked name (s.next_block b) s.next_block s)
              (counts-set_head name (s.next_block b) s) (rw less c.2) (λ other f. v.chain other)))

    remove-later :
        (x : ℕ) (xs : List ℕ)
        → lists name ≡ x ∷ xs
        → (x == b) ≡ false
        → Returns
            (λ s'. IsValid s' (put name (erase b (lists name)) lists))
            (remove_from_list name (pos b) s)
    unfolding remove_from_list below_total next_of set_next
    remove-later x xs e d =
        let c : Chain s.total_blocks s.next_block (head name s) (x ∷ xs) = rw e at (v.chain name) in
        let i : has b xs ≡ true = ground (arith, rw e at on) in
        let p = before b x xs in
        let on' : has p (lists name) ≡ true = rw e (has-before b x xs) in
        let below : p < s.total_blocks =
          has→lt s.total_blocks p (x ∷ xs)
            (Chain-AllBelow s.total_blocks s.next_block (head name s) (x ∷ xs) c)
            (has-before b x xs) in
        let walk : prev_block (rounds s) (pos b) (pos x) s ≡ ok (pos p) =
          prev_block-before s (rounds s) b (pos x) x xs (refl, c.1, c.2) i
            (omega (arith, length-lists v name, ap length e)) in
        let less : erase b (lists name) ≡ x ∷ erase b xs = rw (e, d) in
        rw (lt→ltb b s.total_blocks l, c.0, d, walk, lt→ltb p s.total_blocks below)
          (returns (
            removed (head name s) (update s.next_block p (s.next_block b)) _
              (next_block-Relinked name (update s.next_block p (s.next_block b)) s) (refl, refl)
              (rw less (
                Chain-erase s.total_blocks s.next_block b (head name s) x xs c
                  (rw e at (v.nodup name)) i))
              (λ other f.
                Chain-update s.total_blocks s.next_block p (s.next_block b) (head other s)
                  (lists other) (elsewhere name other p v on' f) (v.chain other))))

    -- `ffs_block_v_remove_from_list`, for a block of the list: the block is taken out, the others keep
    -- their order, no other list changes, and the invariant holds.
    pub remove_from_list-put :
        Returns
          (λ s'. IsValid s' (put name (erase b (lists name)) lists))
          (remove_from_list name (pos b) s)
    remove_from_list-put = elim (List-cases (lists name)) [
      | inl e ↦ absurd (cc (on, ap (has b) e))
      | inr (x, xs, e) ↦ elim (Bool-cases (x == b)) [
        | inl k ↦ remove-first xs (e ∙ ap (λ y. y ∷ xs) (==→eq x b k))
        | inr k ↦ remove-later x xs e k
      ]
    ]
