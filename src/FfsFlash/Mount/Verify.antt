-- ===== src/FfsFlash/Mount/Verify.antt =====
-- `ffs_block_i8_verify_free_space` and the whole mount end with valid lists, whatever the flash holds.
use sapphire_os.Prelude.{
  ◌==◌, lt→ltb, ==→eq, Bool-cases, length, minus_one, ℤ, sub16, ◌>>=◌, Returns-bind, Returns, pos,
  ok, returns, ℕ, zero, suc, ◌+◌, ◌*◌, ◌/◌, ◌%◌, ◌^◌, ◌<◌, ◌≡◌, refl, sym, ap, ◌∙◌, ◌⊎◌, inl, inr,
  Bool, true, false, ◌||◌, List, [], ◌∷◌, ◌++◌, arith,
}
use sapphire_os.FfsBlock.{
  ListName, Blocks, head, below_total, next_of, next_block_of, remove_from_list,
}
use sapphire_os.FfsBlock.Chains.{has, Chain, Nodup, erase}
use sapphire_os.FfsBlock.Layout.{put, IsValid}
use sapphire_os.FfsBlock.Update.{elsewhere}
use sapphire_os.FfsBlock.Query.{length-lists}
use sapphire_os.FfsFlash.{FlashDevice, Ffs, meta0, set_dirty, erase_block_size}
use sapphire_os.FfsFlash.Mount.{
  no_blocks, is_blank, verify_loop, verify_free_space, mount, firmware_blocks, block_info_size,
}
use sapphire_os.FfsBlock.Members.{has-append, has-erase→}
use mathlib.Core.Path.{subst}
use sapphire_os.FfsFlash.Mount.Reasons.{FlagsRead, NotBlank, Reason, is_blank-NotBlank}
use sapphire_os.FfsFlash.Mount.Lists.{Unlisted, remove_from_list-kept, set_dirty-kept}
use sapphire_os.FfsFlash.Mount.Scan.{scan_blocks-Done, no_blocks-Scanned}

-- The lists of a file system with no file open: every block on one was put there for a reason, and a
-- block on neither had the flags of a block in use.
pub record Mounted {D : Type 0} (d : FlashDevice D) (s : Blocks) : Type 0 where
  pub lists : ListName → List ℕ
  pub valid : IsValid s lists
  pub no_files : (j : ℕ) → lists (ListName.file j) ≡ []
  pub reason : (name : ListName) (a : ℕ) → has a (lists name) ≡ true → Reason d name a
  pub covered :
      (a : ℕ)
      → a < s.total_blocks
      → (has a (lists ListName.free) ≡ true)
        ⊎ (has a (lists ListName.dirty) ≡ true)
        ⊎ FlagsRead d a 0xbf

Chain-end :
    (n : ℕ) (f : ℕ → ℤ) (h : ℤ) (xs : List ℕ) (b : ℕ) → Chain n f h (xs ++ b ∷ []) → f b ≡ minus_one
Chain-end n f h [] b c = c.2
Chain-end n f h (x ∷ xs) b c = Chain-end n f (f x) xs b c.2

has-erase_self : (b : ℕ) (xs : List ℕ) → Nodup xs → has b (erase b xs) ≡ false
has-erase_self b [] d = refl
has-erase_self b (x ∷ xs) d = elim (Bool-cases (x == b)) [
  | inl e ↦ rw e (ap (λ c. has c xs) (sym (==→eq x b e)) ∙ d.0)
  | inr e ↦ rw e (ground (arith, has-erase_self b xs d.1))
]

has-erase_other :
    (a b : ℕ) (xs : List ℕ) → (a == b) ≡ false → has a xs ≡ true → has a (erase b xs) ≡ true
has-erase_other a b [] other h = h
has-erase_other a b (x ∷ xs) other h = ground (arith, other, h, has-erase_other a b xs other)

next_block_of-eq :
    (b : ℕ) (s : Blocks) → b < s.total_blocks → next_block_of (pos b) s ≡ ok (s.next_block b)
unfolding next_block_of next_of below_total
next_block_of-eq b s l = ground (arith, lt→ltb b s.total_blocks l)

module _ {D : Type 0} (d : FlashDevice D) where
  removed :
      (b k : ℕ) (s : Ffs D) (m : Mounted d s.blocks)
      → b < s.blocks.total_blocks
      → has b (m.lists ListName.free) ≡ true
      → NotBlank d b
      → Returns
          (λ (errors, t). Mounted d t.blocks)
          (remove_from_list ListName.free (pos b) s.blocks >>= λ blocks.
            set_dirty d b (record s { blocks = blocks }) >>= λ t.
            next_block_of (pos b) t.blocks >>= λ next. verify_loop d (suc k) next true t)
  unfolding verify_loop
  removed b k s m l on dirty =
      let out = λ (other : ListName). gone other in
      Returns-bind (remove_from_list-kept m.valid ListName.free b l on) λ blocks (v, e).
        Returns-bind
          (set_dirty-kept d b (record s { blocks = blocks })
            (put ListName.free (erase b (m.lists ListName.free)) m.lists) v (omega (arith, e)) out)
          λ t (w, f).
            let last : t.blocks.next_block b ≡ minus_one =
              Chain-end t.blocks.total_blocks t.blocks.next_block (head ListName.dirty t.blocks)
                (m.lists ListName.dirty) b (w.chain ListName.dirty) in
            rw (next_block_of-eq b t.blocks (omega (arith, e, f)), last)
              (returns (record {
                lists = _;
                valid = w;
                no_files = m.no_files;
                reason = why;
                covered = λ a small. placed a (m.covered a (omega (arith, e, f)));
              }))
    where
      after : ListName → List ℕ
      after =
          put ListName.dirty (m.lists ListName.dirty ++ b ∷ [])
            (put ListName.free (erase b (m.lists ListName.free)) m.lists)

      why : (name : ListName) (a : ℕ) → has a (after name) ≡ true → Reason d name a
      why ListName.free a h = m.reason ListName.free a (has-erase→ a b (m.lists ListName.free) h)
      why (ListName.file j) a h = tt
      why ListName.dirty a h =
          let on' : (has a (m.lists ListName.dirty) || (a == b)) ≡ true =
            sym (has-append a b (m.lists ListName.dirty)) ∙ h in
          elim (Bool-cases (has a (m.lists ListName.dirty))) [
            | inl old ↦ m.reason ListName.dirty a old
            | inr new ↦
                let at : b ≡ a = ground (arith, on', new) in
                subst (Reason d ListName.dirty) at (inr (inr (inr dirty)))
          ]

      placed :
          (a : ℕ)
          → (has a (m.lists ListName.free) ≡ true)
            ⊎ (has a (m.lists ListName.dirty) ≡ true)
            ⊎ FlagsRead d a 0xbf
          → (has a (after ListName.free) ≡ true)
            ⊎ (has a (after ListName.dirty) ≡ true)
            ⊎ FlagsRead d a 0xbf
      placed a (inr (inr used)) = inr (inr used)
      placed a (inr (inl h)) =
          inr (inl (has-append a b (m.lists ListName.dirty) ∙ ground (arith, h)))
      placed a (inl h) = elim (Bool-cases (a == b)) [
        | inl this ↦ inr (inl (has-append a b (m.lists ListName.dirty) ∙ ground (arith, this)))
        | inr other ↦ inl (has-erase_other a b (m.lists ListName.free) other h)
      ]

      gone : Unlisted b (put ListName.free (erase b (m.lists ListName.free)) m.lists)
      gone ListName.free = has-erase_self b (m.lists ListName.free) (m.valid.nodup ListName.free)
      gone ListName.dirty = elsewhere ListName.free ListName.dirty b m.valid on refl
      gone (ListName.file j) = elsewhere ListName.free (ListName.file j) b m.valid on refl

  verify_loop-Mounted :
      (k : ℕ) (block : ℤ) (errors : Bool) (s : Ffs D) (m : Mounted d s.blocks) (ys : List ℕ)
      → Chain s.blocks.total_blocks s.blocks.next_block block ys
      → ((a : ℕ) → has a ys ≡ true → has a (m.lists ListName.free) ≡ true)
      → length ys < k
      → Returns (λ (e, t). Mounted d t.blocks) (verify_loop d k block errors s)
  unfolding verify_loop
  verify_loop-Mounted zero block errors s m ys c on l = absurd (omega arith)
  verify_loop-Mounted (suc k) block errors s m [] c on l = rw c (returns m)
  verify_loop-Mounted (suc zero) block errors s m (y ∷ ys) c on l = absurd (omega arith)
  verify_loop-Mounted (suc (suc k)) block errors s m (y ∷ ys) c on l =
      let blank = (is_blank d (erase_block_size / 256) (meta0 y) s.flash).0 in
      let flash = (is_blank d (erase_block_size / 256) (meta0 y) s.flash).1 in
      rw (c.0) (elim (Bool-cases blank) [
        | inl e ↦
            rw (verify_loop, e, next_block_of-eq y s.blocks c.1)
              (verify_loop-Mounted (suc k) (s.blocks.next_block y) errors
                (record s { flash = flash }) m ys c.2 (λ a h. on a (ground arith)) (omega arith))
        | inr e ↦
            rw (verify_loop, e)
              (removed y k (record s { flash = flash }) m c.1 (on y (ground arith))
                (is_blank-NotBlank d y s.flash e))
      ])

  pub mount-Mounted :
      (room : ℕ → Bool) (s : Ffs D)
      → sub16 (d.capacity s.flash / erase_block_size % 2 ^ 16) (firmware_blocks + 1) < 2 ^ 15
      → room (
          sub16 (d.capacity s.flash / erase_block_size % 2 ^ 16) (firmware_blocks + 1)
          * block_info_size
          % 2 ^ 16)
        ≡ true
      → Returns (λ t. Mounted d t.blocks) (mount d false room s)
  unfolding mount verify_free_space head
  mount-Mounted room s l memory =
      let total = sub16 (d.capacity s.flash / erase_block_size % 2 ^ 16) (firmware_blocks + 1) in
      rw (mount, memory, ◌>>=◌)
        (Returns-bind
          (scan_blocks-Done d {total = total} total 0 (record s { blocks = no_blocks total })
            (omega arith) (no_blocks-Scanned total l))
          λ t c.
            Returns-bind
              (verify_loop-Mounted (t.blocks.total_blocks + 1) t.blocks.free_list false t
                (record {
                  lists = c.lists;
                  valid = c.valid;
                  no_files = c.no_files;
                  reason = c.reason;
                  covered = λ a l'. c.covered a (omega (arith, c.size));
                })
                (c.lists ListName.free) (c.valid.chain ListName.free) (λ a h. h)
                (omega (arith, length-lists c.valid ListName.free)))
              λ out m. returns m)
