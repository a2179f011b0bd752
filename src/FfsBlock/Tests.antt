-- ===== src/FfsBlock/Tests.antt =====
-- A file system of four blocks: 0 and 1 are free, 2 is dirty, 3 was just taken.
use sapphire_os.Prelude.{
  update, minus_one, Returns, pos, ℕ, ◌≡◌, refl, true, false, List, [], ◌∷◌, arith,
}
use sapphire_os.FfsBlock.{ListName, Blocks, head, add_to_list, remove_from_list}
use sapphire_os.FfsBlock.Chains.{has, Chain, Nodup}
use sapphire_os.FfsBlock.Layout.{same_list, put, IsValid}
use sapphire_os.FfsBlock.Splice.{add_to_list-put, remove_from_list-put}

abbrev four : Blocks
four = record {
  next_block = update (λ _. minus_one) 0 (pos 1);
  total_blocks = 4;
  free_list = pos 0;
  dirty_list = pos 2;
  free_blocks = 2;
  dirty_blocks = 1;
  start_block = λ _. minus_one;
}

abbrev blocks_of : ListName → List ℕ
blocks_of ListName.free = 0 ∷ 1 ∷ []
blocks_of ListName.dirty = 2 ∷ []
blocks_of (ListName.file i) = []

four-Chain : (name : ListName) → Chain 4 four.next_block (head name four) (blocks_of name)
unfolding head
four-Chain ListName.free = (refl, omega arith, (refl, omega arith, refl))
four-Chain ListName.dirty = (refl, omega arith, refl)
four-Chain (ListName.file i) = refl

four-Nodup : (name : ListName) → Nodup (blocks_of name)
four-Nodup ListName.free = (refl, (refl, tt))
four-Nodup ListName.dirty = (refl, tt)
four-Nodup (ListName.file i) = tt

four-apart :
    (a : ℕ) (name other : ListName)
    → has a (blocks_of name) ≡ true
    → has a (blocks_of other) ≡ true
    → same_list name other ≡ true
four-apart a ListName.free ListName.free h k = refl
four-apart a ListName.free ListName.dirty h k = absurd (ground arith)
four-apart a ListName.free (ListName.file i) h k = absurd (cc k)
four-apart a ListName.dirty ListName.free h k = absurd (ground arith)
four-apart a ListName.dirty ListName.dirty h k = refl
four-apart a ListName.dirty (ListName.file i) h k = absurd (cc k)
four-apart a (ListName.file i) other h k = absurd (cc h)

four-IsValid : IsValid four blocks_of
four-IsValid = record {
  chain = four-Chain;
  nodup = four-Nodup;
  apart = four-apart;
  free_count = refl;
  dirty_count = refl;
  small = omega arith;
}

three_is_out : (other : ListName) → has 3 (blocks_of other) ≡ false
three_is_out ListName.free = refl
three_is_out ListName.dirty = refl
three_is_out (ListName.file i) = refl

add_to_list-put_example :
    Returns
      (λ s'. IsValid s' (put ListName.dirty (2 ∷ 3 ∷ []) blocks_of))
      (add_to_list ListName.dirty (pos 3) four)
add_to_list-put_example = add_to_list-put four-IsValid ListName.dirty 3 (omega arith) three_is_out

remove_from_list-put_example :
    Returns
      (λ s'. IsValid s' (put ListName.free (0 ∷ []) blocks_of))
      (remove_from_list ListName.free (pos 1) four)
remove_from_list-put_example = remove_from_list-put four-IsValid ListName.free 1 (omega arith) refl
