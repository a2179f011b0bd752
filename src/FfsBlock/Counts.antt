-- ===== src/FfsBlock/Counts.antt =====
-- The heads and the counters of src/ffs_block.c under the assignments of its functions.
use sapphire_os.Prelude.{length, ℤ, ℕ, ◌+◌, ◌^◌, ◌<◌, ◌≡◌, refl, ◌∙◌, false, List, arith}
use sapphire_os.FfsBlock.{ListName, Blocks, head, set_head, count_up, count_down}
use sapphire_os.FfsBlock.Layout.{same_list, put, same_list_refl, head-set_head}

pub total-set_head :
    (name : ListName) (h : ℤ) (s : Blocks) → (set_head name h s).total_blocks ≡ s.total_blocks
unfolding set_head
total-set_head ListName.free h s = refl
total-set_head ListName.dirty h s = refl
total-set_head (ListName.file i) h s = refl

pub next-set_head :
    (name : ListName) (h : ℤ) (s : Blocks) → (set_head name h s).next_block ≡ s.next_block
unfolding set_head
next-set_head ListName.free h s = refl
next-set_head ListName.dirty h s = refl
next-set_head (ListName.file i) h s = refl

pub counts-set_head :
    (name : ListName) (h : ℤ) (s : Blocks)
    → ((set_head name h s).free_blocks ≡ s.free_blocks)
      × ((set_head name h s).dirty_blocks ≡ s.dirty_blocks)
unfolding set_head
counts-set_head ListName.free h s = (refl, refl)
counts-set_head ListName.dirty h s = (refl, refl)
counts-set_head (ListName.file i) h s = (refl, refl)

-- links change no head
pub head-next_block :
    (name : ListName) (links : ℕ → ℤ) (s : Blocks)
    → head name (record s { next_block = links }) ≡ head name s
unfolding head
head-next_block ListName.free links s = refl
head-next_block ListName.dirty links s = refl
head-next_block (ListName.file i) links s = refl

-- nor do the counters, which in turn change neither links nor the size of the array
pub same-count_up :
    (name other : ListName) (s : Blocks)
    → (head other (count_up name s) ≡ head other s)
      × ((count_up name s).next_block ≡ s.next_block)
      × ((count_up name s).total_blocks ≡ s.total_blocks)
unfolding head count_up
same-count_up ListName.free ListName.free s = (refl, refl, refl)
same-count_up ListName.free ListName.dirty s = (refl, refl, refl)
same-count_up ListName.free (ListName.file i) s = (refl, refl, refl)
same-count_up ListName.dirty ListName.free s = (refl, refl, refl)
same-count_up ListName.dirty ListName.dirty s = (refl, refl, refl)
same-count_up ListName.dirty (ListName.file i) s = (refl, refl, refl)
same-count_up (ListName.file j) other s = (refl, refl, refl)

pub same-count_down :
    (name other : ListName) (s : Blocks)
    → (head other (count_down name s) ≡ head other s)
      × ((count_down name s).next_block ≡ s.next_block)
      × ((count_down name s).total_blocks ≡ s.total_blocks)
unfolding head count_down
same-count_down ListName.free ListName.free s = (refl, refl, refl)
same-count_down ListName.free ListName.dirty s = (refl, refl, refl)
same-count_down ListName.free (ListName.file i) s = (refl, refl, refl)
same-count_down ListName.dirty ListName.free s = (refl, refl, refl)
same-count_down ListName.dirty ListName.dirty s = (refl, refl, refl)
same-count_down ListName.dirty (ListName.file i) s = (refl, refl, refl)
same-count_down (ListName.file j) other s = (refl, refl, refl)

-- both counters are the lengths of their lists
abbrev pub Counted : Blocks → (ListName → List ℕ) → Type 0
Counted s lists =
    (s.free_blocks ≡ length (lists ListName.free))
    × (s.dirty_blocks ≡ length (lists ListName.dirty))

module _ (s : Blocks) (lists : ListName → List ℕ) (counted : Counted s lists) (xs : List ℕ) where
  pub count_up-Counted :
      (name : ListName)
      → length xs ≡ length (lists name) + 1
      → length (lists name) < 2 ^ 15
      → Counted (count_up name s) (put name xs lists)
  unfolding count_up
  count_up-Counted ListName.free e l = omega (arith, counted)
  count_up-Counted ListName.dirty e l = omega (arith, counted)
  count_up-Counted (ListName.file i) e l = counted

  pub count_down-Counted :
      (name : ListName)
      → length xs + 1 ≡ length (lists name)
      → length (lists name) < 2 ^ 16
      → Counted (count_down name s) (put name xs lists)
  unfolding count_down
  count_down-Counted ListName.free e l = omega (arith, counted)
  count_down-Counted ListName.dirty e l = omega (arith, counted)
  count_down-Counted (ListName.file i) e l = counted

  -- a list changed to one of the same length
  pub put-Counted :
      (name : ListName) → length xs ≡ length (lists name) → Counted s (put name xs lists)
  put-Counted ListName.free e = omega (arith, counted)
  put-Counted ListName.dirty e = omega (arith, counted)
  put-Counted (ListName.file i) e = counted

-- The head of one list and the links are changed, and nothing else that a list depends on.
pub record Relinked (name : ListName) (h : ℤ) (links : ℕ → ℤ) (s s' : Blocks) : Type 0 where
  pub total : s'.total_blocks ≡ s.total_blocks
  pub linked : s'.next_block ≡ links
  pub here : head name s' ≡ h
  pub others : (other : ListName) → same_list name other ≡ false → head other s' ≡ head other s

-- the assignments of a head and of links, as far as the counters are left alone
pub set_head-Relinked :
    (name : ListName) (h : ℤ) (links : ℕ → ℤ) (s : Blocks)
    → Relinked name h links s (record (set_head name h s) { next_block = links })
set_head-Relinked name h links s = record {
  total = total-set_head name h s;
  linked = refl;
  here =
      head-next_block name links (set_head name h s)
      ∙ head-set_head name name h s
      ∙ rw (same_list_refl name);
  others = λ other e.
      head-next_block other links (set_head name h s) ∙ head-set_head name other h s ∙ rw e;
}

pub head_links-Relinked :
    (name : ListName) (h : ℤ) (links : ℕ → ℤ) (s : Blocks)
    → Relinked name h links s (set_head name h (record s { next_block = links }))
head_links-Relinked name h links s = record {
  total = total-set_head name h (record s { next_block = links });
  linked = next-set_head name h (record s { next_block = links });
  here = head-set_head name name h (record s { next_block = links }) ∙ rw (same_list_refl name);
  others = λ other e.
      head-set_head name other h (record s { next_block = links })
      ∙ rw e (head-next_block other links s);
}

pub next_block-Relinked :
    (name : ListName) (links : ℕ → ℤ) (s : Blocks)
    → Relinked name (head name s) links s (record s { next_block = links })
next_block-Relinked name links s = record {
  total = refl;
  linked = refl;
  here = head-next_block name links s;
  others = λ other e. head-next_block other links s;
}

module _ {name : ListName} {h : ℤ} {links : ℕ → ℤ} {s s' : Blocks}
    (r : Relinked name h links s s') where
  pub count_up-Relinked : Relinked name h links s (count_up name s')
  count_up-Relinked = record {
    total = (same-count_up name name s').2 ∙ r.total;
    linked = (same-count_up name name s').1 ∙ r.linked;
    here = (same-count_up name name s').0 ∙ r.here;
    others = λ other e. (same-count_up name other s').0 ∙ r.others other e;
  }

  pub count_down-Relinked : Relinked name h links s (count_down name s')
  count_down-Relinked = record {
    total = (same-count_down name name s').2 ∙ r.total;
    linked = (same-count_down name name s').1 ∙ r.linked;
    here = (same-count_down name name s').0 ∙ r.here;
    others = λ other e. (same-count_down name other s').0 ∙ r.others other e;
  }
