-- ===== src/FfsFlash/Mount/Scan.antt =====
-- The scan of `ffs_block_v_init` ends with valid lists, whatever the flash holds.
use mathlib.Core.Path.{subst}
use sapphire_os.Prelude.{
  ◌==◌, lt→ltb, ==→eq, Bool-cases, minus_one, ◌>>=◌, Returns-bind, Returns-mono, Returns-value,
  Returns, pos, ok, returns, ℕ, zero, suc, ◌+◌, ◌/◌, ◌%◌, ◌^◌, ◌≤◌, ◌<◌, ◌≡◌, refl, sym, ap, ◌∙◌,
  ◌≢◌, ◌⊎◌, inl, inr, true, false, ◌||◌, Option, none, some, List, [], ◌∷◌, ◌++◌, arith,
}
use sapphire_os.FfsBlock.{ListName, Blocks, add_to_list, head}
use sapphire_os.FfsBlock.Chains.{has}
use sapphire_os.FfsBlock.Members.{has-append}
use sapphire_os.FfsBlock.Layout.{same_list, put, IsValid}
use sapphire_os.FfsFlash.{
  FlashDevice, Ffs, io_attempts, read_flags, read_flags_loop, read_meta, set_dirty,
}
use sapphire_os.FfsFlash.Retry.{MetaRead, read_meta-MetaRead}
use sapphire_os.FfsFlash.Mount.{no_blocks, scan_block, scan_blocks}
use sapphire_os.FfsFlash.Mount.Reasons.{FlagsRead, Reason, flags-cases, not_free, surely}
use sapphire_os.FfsFlash.Mount.Lists.{Unlisted, add_to_list-kept, set_dirty-kept}

-- after the blocks below `i` were looked at
pub record Scanned {D : Type 0} (d : FlashDevice D) (total i : ℕ) (s : Blocks) : Type 0 where
  pub lists : ListName → List ℕ
  pub valid : IsValid s lists
  pub below : (name : ListName) (a : ℕ) → has a (lists name) ≡ true → a < i
  pub no_files : (j : ℕ) → lists (ListName.file j) ≡ []
  pub size : s.total_blocks ≡ total
  pub reason : (name : ListName) (a : ℕ) → has a (lists name) ≡ true → Reason d name a
  pub covered :
      (a : ℕ)
      → a < i
      → (has a (lists ListName.free) ≡ true)
        ⊎ (has a (lists ListName.dirty) ≡ true)
        ⊎ FlagsRead d a 0xbf

Scanned-next :
    {D : Type 0} {d : FlashDevice D} {total i : ℕ} {s : Blocks}
    → Scanned d total i s
    → FlagsRead d i 0xbf
    → Scanned d total (i + 1) s
Scanned-next {i} c valid = record {
  reason = c.reason;
  covered = λ a l. elim (Bool-cases (a == i)) [
    | inr before ↦ c.covered a (ground (arith, before, l))
    | inl this ↦ let at : i ≡ a = sym (==→eq a i this) in inr (inr (rw at at valid))
  ];
  lists = c.lists;
  valid = c.valid;
  below = λ name a h. omega (arith, c.below name a h);
  no_files = c.no_files;
  size = c.size;
}

same_list-eq : (a b : ListName) → same_list a b ≡ true → a ≡ b
same_list-eq ListName.free ListName.free e = refl
same_list-eq ListName.free ListName.dirty e = cc
same_list-eq ListName.free (ListName.file j) e = cc
same_list-eq ListName.dirty ListName.free e = cc
same_list-eq ListName.dirty ListName.dirty e = refl
same_list-eq ListName.dirty (ListName.file j) e = cc
same_list-eq (ListName.file i) ListName.free e = cc
same_list-eq (ListName.file i) ListName.dirty e = cc
same_list-eq (ListName.file i) (ListName.file j) e = ap ListName.file (==→eq i j e)

-- block `i` was put on the free or the dirty list
Scanned-put :
    {D : Type 0} {d : FlashDevice D} {total i : ℕ} {s t : Blocks} (c : Scanned d total i s)
    (name : ListName)
    → (name ≡ ListName.free) ⊎ (name ≡ ListName.dirty)
    → Reason d name i
    → ((j : ℕ) → same_list name (ListName.file j) ≡ false)
    → IsValid t (put name (c.lists name ++ i ∷ []) c.lists)
    → t.total_blocks ≡ s.total_blocks
    → Scanned d total (i + 1) t
Scanned-put {d} {total} {i} c name kind why file v e = record {
  reason = λ other a h. elim (Bool-cases (same_list name other)) [
    | inr apart ↦ c.reason other a (rw apart at h)
    | inl same ↦
        let on : (has a (c.lists name) || (a == i)) ≡ true =
          sym (has-append a i (c.lists name)) ∙ (rw same at h) in
        let is : name ≡ other = same_list-eq name other same in
        elim (Bool-cases (has a (c.lists name))) [
          | inl old ↦ subst (λ n. Reason d n a) is (c.reason name a old)
          | inr new ↦
              let at : i ≡ a = ground (arith, on, new) in
              subst (λ n. Reason d n a) is (subst (Reason d name) at why)
        ]
  ];
  covered = λ a l. elim (Bool-cases (a == i)) [
    | inr before ↦ keep name a kind (c.covered a (ground (arith, before, l)))
    | inl this ↦ place name a kind (has-append a i (c.lists name) ∙ ground (arith, this))
  ];
  lists = put name (c.lists name ++ i ∷ []) c.lists;
  valid = v;
  below = λ other a h. elim (Bool-cases (same_list name other)) [
    | inl same ↦
        let on : (has a (c.lists name) || (a == i)) ≡ true =
          sym (has-append a i (c.lists name)) ∙ (rw same at h) in
        elim (Bool-cases (has a (c.lists name))) [
          | inl old ↦ omega (arith, c.below name a old)
          | inr new ↦ ground arith
        ]
    | inr apart ↦ omega (arith, c.below other a (rw apart at h))
  ];
  no_files = λ j. rw (file j) (c.no_files j);
  size = e ∙ c.size;
}
  where
    Covered : (ListName → List ℕ) → ℕ → Type 0
    Covered lists a =
        (has a (lists ListName.free) ≡ true)
        ⊎ (has a (lists ListName.dirty) ≡ true)
        ⊎ FlagsRead d a 0xbf

    longer : (a : ℕ) (xs : List ℕ) → has a xs ≡ true → has a (xs ++ i ∷ []) ≡ true
    longer a xs h = has-append a i xs ∙ ground (arith, h)

    keep :
        (name : ListName) (a : ℕ)
        → (name ≡ ListName.free) ⊎ (name ≡ ListName.dirty)
        → Covered c.lists a
        → Covered (put name (c.lists name ++ i ∷ []) c.lists) a
    keep name a (inl is) (inl h) = inl (rw is (longer a (c.lists ListName.free) h))
    keep name a (inl is) (inr (inl h)) = inr (inl (rw is h))
    keep name a (inr is) (inl h) = inl (rw is h)
    keep name a (inr is) (inr (inl h)) = inr (inl (rw is (longer a (c.lists ListName.dirty) h)))
    keep name a kind (inr (inr h)) = inr (inr h)

    place :
        (name : ListName) (a : ℕ)
        → (name ≡ ListName.free) ⊎ (name ≡ ListName.dirty)
        → has a (c.lists name ++ i ∷ []) ≡ true
        → Covered (put name (c.lists name ++ i ∷ []) c.lists) a
    place name a (inl is) h = inl (rw is (rw is at h))
    place name a (inr is) h = inr (inl (rw is (rw is at h)))

unlisted :
    {D : Type 0} {d : FlashDevice D} {total i : ℕ} {s : Blocks} (c : Scanned d total i s)
    → Unlisted i c.lists
unlisted {i} c other = elim (Bool-cases (has i (c.lists other))) [
  | inl h ↦ absurd (omega (arith, c.below other i h))
  | inr h ↦ h
]

not_valid : (flags : ℕ) → (flags / 2 ^ 7 % 2 == 0) ≡ true → flags ≢ 0xbf
not_valid flags e same = omega (arith, same, ==→eq (flags / 2 ^ 7 % 2) 0 e)

module _ {D : Type 0} (d : FlashDevice D) {total : ℕ} where
  listed :
      (name : ListName) (i : ℕ) (t : Ffs D)
      → (name ≡ ListName.free) ⊎ (name ≡ ListName.dirty)
      → Reason d name i
      → ((j : ℕ) → same_list name (ListName.file j) ≡ false)
      → i < total
      → Scanned d total i t.blocks
      → Returns
          (λ u. Scanned d total (i + 1) u.blocks)
          (add_to_list name (pos i) t.blocks >>= λ blocks. ok (record t { blocks = blocks }))
  listed name i t kind why file l c =
      Returns-bind (add_to_list-kept c.valid name i (omega (arith, c.size)) (unlisted c))
        λ blocks (v, e). returns (Scanned-put c name kind why file v e)

  dirtied :
      (i : ℕ) (t : Ffs D)
      → Reason d ListName.dirty i
      → i < total
      → Scanned d total i t.blocks
      → Returns (λ u. Scanned d total (i + 1) u.blocks) (set_dirty d i t)
  dirtied i t why l c =
      Returns-mono (set_dirty-kept d i t c.lists c.valid (omega (arith, c.size)) (unlisted c))
        λ u (v, e). Scanned-put c ListName.dirty (inr refl) why (λ j. refl) v e

  checked :
      (i : ℕ) (t : Ffs D)
      → FlagsRead d i 0xbf
      → i < total
      → Scanned d total i t.blocks
      → Returns
          (λ u. Scanned d total (i + 1) u.blocks)
          (read_meta d i t >>= λ (meta, u). elim meta [
            | none ↦ set_dirty d i u
            | some found ↦ ok u
          ])
  checked i t valid l c =
      let (r, is, m) = Returns-value (read_meta-MetaRead d i t (omega (arith, c.size))) in
      rw (is, ◌>>=◌) (outcome r m is)
    where
      outcome :
          (r : Option (List ℕ) × Ffs D)
          → MetaRead d i 3 t r
          → read_meta d i t ≡ ok r
          → Returns
              (λ u. Scanned d total (i + 1) u.blocks)
              (elim (r.0) [ none ↦ set_dirty d i r.1 | some found ↦ ok r.1 ])
      outcome _ (MetaRead.found meta u j h few one two count a b same f g) is =
          returns (subst (Scanned d total (i + 1)) (sym same) (Scanned-next c valid))
      outcome _ (MetaRead.failed u count same f g) is =
          dirtied i u (inr (inl (t, u, is))) l (subst (Scanned d total i) (sym same) c)

  scan_block-Done :
      (i : ℕ) (s : Ffs D)
      → i < total
      → Scanned d total i s.blocks
      → Returns (λ u. Scanned d total (i + 1) u.blocks) (scan_block d i s)
  unfolding scan_block read_flags
  scan_block-Done i s l c =
      let size : i < s.blocks.total_blocks = omega (arith, c.size) in
      let flags = (read_flags_loop d io_attempts i s.flash).0 in
      let t : Ffs D = record s { flash = (read_flags_loop d io_attempts i s.flash).1 } in
      let read = flags-cases d 2 i s.flash in
      rw (lt→ltb i s.blocks.total_blocks size) (elim (Bool-cases (flags == 0xff)) [
        | inl free ↦ rw free (
            listed ListName.free i t (inl refl)
              (surely d i flags 0xff read (==→eq flags 0xff free) (omega arith)) (λ j. refl) l c)
        | inr used ↦ rw used (elim (Bool-cases (flags / 2 ^ 7 % 2 == 0)) [
          | inl dirty ↦ rw dirty (
              listed ListName.dirty i t (inr refl)
                (not_free d i flags read (ground (arith, used)) (not_valid flags dirty)) (λ j. refl)
                l c)
          | inr clean ↦ rw clean (elim (Bool-cases (flags == 0xbf)) [
            | inl good ↦
                rw good (
                  checked i t (surely d i flags 0xbf read (==→eq flags 0xbf good) (omega arith)) l
                    c)
            | inr bad ↦ rw bad (
                dirtied i t (not_free d i flags read (ground (arith, used)) (ground (arith, bad))) l
                  c)
          ])
        ])
      ])

  pub scan_blocks-Done :
      (n i : ℕ) (s : Ffs D)
      → i + n ≤ total
      → Scanned d total i s.blocks
      → Returns (λ u. Scanned d total (i + n) u.blocks) (scan_blocks d n i s)
  unfolding scan_blocks
  scan_blocks-Done zero i s l c = returns (subst (λ k. Scanned d total k s.blocks) (omega arith) c)
  scan_blocks-Done (suc n) i s l c = Returns-bind (scan_block-Done i s (omega arith) c) λ t next.
      Returns-mono (scan_blocks-Done n (i + 1) t (omega arith) next)
        λ u done. subst (λ k. Scanned d total k u.blocks) (omega arith) done

pub no_blocks-Scanned :
    {D : Type 0} {d : FlashDevice D} (total : ℕ)
    → total < 2 ^ 15
    → Scanned d total 0 (no_blocks total)
unfolding no_blocks head
no_blocks-Scanned total l = record {
  reason = λ name a h. cc;
  covered = λ a h. absurd (omega arith);
  lists = λ _. [];
  valid = record {
    chain = empty;
    nodup = λ name. tt;
    apart = λ a name other h k. cc;
    free_count = refl;
    dirty_count = refl;
    small = l;
  };
  below = λ name a h. cc;
  no_files = λ j. refl;
  size = refl;
}
  where
    empty : (name : ListName) → head name (no_blocks total) ≡ minus_one
    empty ListName.free = refl
    empty ListName.dirty = refl
    empty (ListName.file i) = refl
