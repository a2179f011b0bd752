-- ===== src/FfsFlash/Mount/Lists.antt =====
-- What `ffs_block_v_set_dirty` and the functions that it calls do to the lists of blocks.
use sapphire_os.Prelude.{
  if◌then◌else◌, lt→ltb, is_neg, minus_one, ℤ, ◌>>=◌, assert, >>=-eq-ok, Returns-bind,
  Returns-value, Returns, pos, negsuc, ok, returns, ℕ, ◌<◌, ◌≡◌, ◌∙◌, Bool, true, false, List, [],
  ◌∷◌, ◌++◌, arith,
}
use sapphire_os.FfsBlock.{
  ListName, Blocks, head, set_head, eq_block, next_of, prev_block, count_down, remove_from_list,
  below_total, set_next, count_up, last_block, rounds, add_to_list,
}
use sapphire_os.FfsBlock.Chains.{has, erase}
use sapphire_os.FfsBlock.Counts.{total-set_head, same-count_up, same-count_down}
use sapphire_os.FfsBlock.Layout.{put, IsValid}
use sapphire_os.FfsBlock.Splice.{add_to_list-put, remove_from_list-put}
use sapphire_os.FfsFlash.{FlashDevice, Ffs, read_flags, set_dirty}

-- the array keeps its size
set_next-total :
    (block value : ℤ) (s t : Blocks)
    → set_next block value s ≡ ok t
    → t.total_blocks ≡ s.total_blocks
unfolding set_next
set_next-total (pos i) value s t e = ground arith
set_next-total (negsuc i) value s t e = cc

add_to_list-total :
    (name : ListName) (block : ℤ) (s t : Blocks)
    → add_to_list name block s ≡ ok t
    → t.total_blocks ≡ s.total_blocks
unfolding add_to_list
add_to_list-total name block s t e =
    let (one, is_one, rest) = >>=-eq-ok (set_next block minus_one s) _ e in
    let first = set_next-total block minus_one s one is_one in
    let (two, is_two, last) =
      >>=-eq-ok
        (if is_neg (head name one)
          then ok (set_head name block one)
          else (assert (below_total block one) >>= λ _.
              last_block (rounds one) (head name one) one >>= λ l. set_next l block one))
        _ rest in
    let counted : t ≡ count_up name two = cc in
    let second = middle name block one two (is_neg (head name one)) is_two in
    rw counted ((same-count_up name name two).2 ∙ second ∙ first)
  where
    middle :
        (name : ListName) (block : ℤ) (one two : Blocks) (empty : Bool)
        → (if empty
            then ok (set_head name block one)
            else (assert (below_total block one) >>= λ _.
                last_block (rounds one) (head name one) one >>= λ l. set_next l block one))
          ≡ ok two
        → two.total_blocks ≡ one.total_blocks
    middle name block one two true h =
        let is : two ≡ set_head name block one = cc in rw is (total-set_head name block one)
    middle name block one two false h =
        let (u, is_u, h1) = >>=-eq-ok (assert (below_total block one)) _ h in
        let (l, is_l, h2) = >>=-eq-ok (last_block (rounds one) (head name one) one) _ h1 in
        set_next-total l block one two h2

remove_from_list-total :
    (name : ListName) (block : ℤ) (s t : Blocks)
    → remove_from_list name block s ≡ ok t
    → t.total_blocks ≡ s.total_blocks
unfolding remove_from_list
remove_from_list-total name block s t e =
    let (u, is_u, rest) = >>=-eq-ok (assert (below_total block s)) _ e in
    let (one, is_one, last) =
      >>=-eq-ok
        (if eq_block (head name s) block
          then (next_of block s >>= λ next. ok (set_head name next s))
          else (prev_block (rounds s) block (head name s) s >>= λ prev.
              next_of block s >>= λ next. set_next prev next s))
        _ rest in
    let counted : t ≡ count_down name one = cc in
    rw counted (
      (same-count_down name name one).2
      ∙ middle name block s one (eq_block (head name s) block) is_one)
  where
    middle :
        (name : ListName) (block : ℤ) (s one : Blocks) (first : Bool)
        → (if first
            then (next_of block s >>= λ next. ok (set_head name next s))
            else (prev_block (rounds s) block (head name s) s >>= λ prev.
                next_of block s >>= λ next. set_next prev next s))
          ≡ ok one
        → one.total_blocks ≡ s.total_blocks
    middle name block s one true h =
        let (next, is_next, h1) = >>=-eq-ok (next_of block s) _ h in
        let is : one ≡ set_head name next s = cc in rw is (total-set_head name next s)
    middle name block s one false h =
        let (prev, is_prev, h1) = >>=-eq-ok (prev_block (rounds s) block (head name s) s) _ h in
        let (next, is_next, h2) = >>=-eq-ok (next_of block s) _ h1 in
        set_next-total prev next s one h2

-- a block that is on no list
abbrev pub Unlisted : ℕ → (ListName → List ℕ) → Type 0
Unlisted b lists = (other : ListName) → has b (lists other) ≡ false

module _ {s : Blocks} {lists : ListName → List ℕ} (v : IsValid s lists) (name : ListName) (b : ℕ)
    (l : b < s.total_blocks) where
  pub add_to_list-kept :
      Unlisted b lists
      → Returns
          (λ t.
            IsValid t (put name (lists name ++ b ∷ []) lists) × (t.total_blocks ≡ s.total_blocks))
          (add_to_list name (pos b) s)
  add_to_list-kept out =
      let (t, is, valid) = Returns-value (add_to_list-put v name b l out) in
      rw is (returns (valid, add_to_list-total name (pos b) s t is))

  pub remove_from_list-kept :
      has b (lists name) ≡ true
      → Returns
          (λ t.
            IsValid t (put name (erase b (lists name)) lists) × (t.total_blocks ≡ s.total_blocks))
          (remove_from_list name (pos b) s)
  remove_from_list-kept on =
      let (t, is, valid) = Returns-value (remove_from_list-put v name b l on) in
      rw is (returns (valid, remove_from_list-total name (pos b) s t is))

module _ {D : Type 0} (d : FlashDevice D) where
  -- whatever the device returns, the block comes last on the dirty list
  pub set_dirty-kept :
      (b : ℕ) (s : Ffs D) (lists : ListName → List ℕ)
      → IsValid s.blocks lists
      → b < s.blocks.total_blocks
      → Unlisted b lists
      → Returns
          (λ t.
            IsValid t.blocks (put ListName.dirty (lists ListName.dirty ++ b ∷ []) lists)
            × (t.blocks.total_blocks ≡ s.blocks.total_blocks))
          (set_dirty d b s)
  unfolding set_dirty read_flags
  set_dirty-kept b s lists v l out =
      rw (lt→ltb b s.blocks.total_blocks l)
        (Returns-bind (add_to_list-kept v ListName.dirty b l out) λ blocks p. returns p)
