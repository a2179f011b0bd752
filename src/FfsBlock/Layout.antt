-- ===== src/FfsBlock/Layout.antt =====
-- The lists of src/ffs_block.c together: each name stands for a list of blocks, no block is on two
-- lists or twice on one, and the counters are the lengths.
use sapphire_os.Prelude.{
  ◌==◌, if◌then◌else◌, ==→eq, Bool-cases, length, ℤ, ℕ, ◌^◌, ◌<◌, ◌≡◌, refl, ap, inl, inr, Bool,
  true, false, List, arith,
}
use mathlib.Core.Path.{subst}
use sapphire_os.FfsBlock.{ListName, Blocks, head, set_head}
use sapphire_os.FfsBlock.Chains.{has, Chain, Nodup}

abbrev pub same_list : ListName → ListName → Bool
same_list ListName.free ListName.free = true
same_list ListName.dirty ListName.dirty = true
same_list (ListName.file i) (ListName.file j) = i == j
same_list _ _ = false

-- the lists after one was changed
abbrev pub put : ListName → List ℕ → (ListName → List ℕ) → ListName → List ℕ
put name xs lists other = if same_list name other then xs else lists other

pub record IsValid (s : Blocks) (lists : ListName → List ℕ) : Type 0 where
  pub chain : (name : ListName) → Chain s.total_blocks s.next_block (head name s) (lists name)
  pub nodup : (name : ListName) → Nodup (lists name)
  pub apart :
      (a : ℕ) (name other : ListName)
      → has a (lists name) ≡ true
      → has a (lists other) ≡ true
      → same_list name other ≡ true
  pub free_count : s.free_blocks ≡ length (lists ListName.free)
  pub dirty_count : s.dirty_blocks ≡ length (lists ListName.dirty)
  pub small : s.total_blocks < 2 ^ 15

pub same_list→eq : (name other : ListName) → same_list name other ≡ true → name ≡ other
same_list→eq ListName.free ListName.free h = refl
same_list→eq ListName.dirty ListName.dirty h = refl
same_list→eq (ListName.file i) (ListName.file j) h = ap ListName.file (==→eq i j h)
same_list→eq ListName.free ListName.dirty h = cc
same_list→eq ListName.free (ListName.file j) h = cc
same_list→eq ListName.dirty ListName.free h = cc
same_list→eq ListName.dirty (ListName.file j) h = cc
same_list→eq (ListName.file i) ListName.free h = cc
same_list→eq (ListName.file i) ListName.dirty h = cc

pub same_list_refl : (name : ListName) → same_list name name ≡ true
same_list_refl ListName.free = refl
same_list_refl ListName.dirty = refl
same_list_refl (ListName.file i) = ground arith

pub head-set_head :
    (name other : ListName) (v : ℤ) (s : Blocks)
    → head other (set_head name v s) ≡ (if same_list name other then v else head other s)
unfolding head set_head
head-set_head ListName.free ListName.free v s = refl
head-set_head ListName.dirty ListName.dirty v s = refl
head-set_head (ListName.file i) (ListName.file j) v s = refl
head-set_head ListName.free ListName.dirty v s = refl
head-set_head ListName.free (ListName.file j) v s = refl
head-set_head ListName.dirty ListName.free v s = refl
head-set_head ListName.dirty (ListName.file j) v s = refl
head-set_head (ListName.file i) ListName.free v s = refl
head-set_head (ListName.file i) ListName.dirty v s = refl

-- One list is changed, to blocks that no other list has.
pub put-IsValid :
    {s : Blocks} {lists : ListName → List ℕ} (s' : Blocks) (name : ListName) (xs : List ℕ)
    → IsValid s lists
    → s'.total_blocks ≡ s.total_blocks
    → Chain s'.total_blocks s'.next_block (head name s') xs
    → ((other : ListName)
        → same_list name other ≡ false
        → Chain s'.total_blocks s'.next_block (head other s') (lists other))
    → Nodup xs
    → ((a : ℕ) (other : ListName)
        → has a xs ≡ true
        → same_list name other ≡ false
        → has a (lists other) ≡ false)
    → s'.free_blocks ≡ length (put name xs lists ListName.free)
    → s'.dirty_blocks ≡ length (put name xs lists ListName.dirty)
    → IsValid s' (put name xs lists)
put-IsValid {s} {lists} s' name xs v total chain others nodup fresh free dirty = record {
  chain = λ other. elim (Bool-cases (same_list name other)) [
    | inl e ↦ rw e (
        subst (λ o. Chain s'.total_blocks s'.next_block (head o s') xs) (same_list→eq name other e)
          chain)
    | inr e ↦ rw e (others other e)
  ];
  nodup = λ other. elim (Bool-cases (same_list name other)) [
    | inl e ↦ rw e nodup
    | inr e ↦ rw e (v.nodup other)
  ];
  apart = λ a one two h k. elim (Bool-cases (same_list name one)) [
    | inl e ↦ elim (Bool-cases (same_list name two)) [
      | inl e' ↦ rw (← same_list→eq name one e) e'
      | inr e' ↦ absurd (cc (fresh a two (rw e at h) e', rw e' at k))
    ]
    | inr e ↦ elim (Bool-cases (same_list name two)) [
      | inl e' ↦ absurd (cc (fresh a one (rw e' at k) e, rw e at h))
      | inr e' ↦ v.apart a one two (rw e at h) (rw e' at k)
    ]
  ];
  free_count = free;
  dirty_count = dirty;
  small = rw total v.small;
}
