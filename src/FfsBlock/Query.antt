-- ===== src/FfsBlock/Query.antt =====
-- The functions of src/ffs_block.c that read a list.
use sapphire_os.Prelude.{lt→ltb, length, pos, ok, ℕ, ◌%◌, ◌^◌, ◌≤◌, ◌<◌, ◌≡◌, ap, ◌∙◌, List, arith}
use sapphire_os.FfsBlock.{
  ListName, Blocks, head, below_total, rounds, is_in_list, list_size, get_block,
}
use sapphire_os.FfsBlock.Chains.{has, Chain-AllBelow, length-le}
use sapphire_os.FfsBlock.Walks.{nth, search_from-has, count_from-length, nth_from-nth}
use sapphire_os.FfsBlock.Layout.{IsValid}

module _ {s : Blocks} {lists : ListName → List ℕ} (v : IsValid s lists) where
  -- a list is no longer than the array
  pub length-lists : (name : ListName) → length (lists name) ≤ s.total_blocks
  length-lists name =
      length-le s.total_blocks (lists name)
        (Chain-AllBelow s.total_blocks s.next_block (head name s) (lists name) (v.chain name))
        (v.nodup name)

  -- For a block inside the array, `ffs_block_b_is_in_list` ends and answers whether the block is
  -- on the list.
  pub is_in_list-has :
      (name : ListName) (b : ℕ)
      → b < s.total_blocks
      → is_in_list name (pos b) s ≡ ok (has b (lists name))
  unfolding is_in_list below_total
  is_in_list-has name b l = rw (lt→ltb b s.total_blocks l) (
      search_from-has s (rounds s) b (head name s) (lists name) (v.chain name)
        (omega (arith, length-lists name)))

  -- `ffs_block_u8_list_size` ends with the length of the list, modulo 256.
  pub list_size-length : (name : ListName) → list_size name s ≡ ok (length (lists name) % 2 ^ 8)
  unfolding list_size
  list_size-length name =
      count_from-length s (rounds s) 0 (head name s) (lists name) (v.chain name)
        (omega (arith, length-lists name)) (omega arith)
      ∙ ap (λ n. ok (n % 2 ^ 8)) (omega arith)

  -- For an index below the number of blocks, `ffs_block_i16_get_block` is the list's entry at the
  -- index, and -1 behind its end.
  pub get_block-nth :
      (name : ListName) (i : ℕ) → i < s.total_blocks → get_block name i s ≡ ok (nth i (lists name))
  unfolding get_block
  get_block-nth name i l =
      rw (lt→ltb i s.total_blocks l) (nth_from-nth s i (head name s) (lists name) (v.chain name))
