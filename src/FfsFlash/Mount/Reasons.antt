-- ===== src/FfsFlash/Mount/Reasons.antt =====
-- Why the mount of src/ffs_block.c puts a block on a list: what the device returned for it.
use sapphire_os.Prelude.{
  ◌==◌, ==→eq, Bool-cases, ok, ℕ, zero, suc, ◌+◌, ◌*◌, ◌/◌, ◌≤◌, ◌<◌, ◌≡◌, refl, sym, ◌≢◌, ◌⊎◌, inl,
  inr, false, none, arith,
}
use sapphire_os.FfsBlock.{ListName}
use sapphire_os.FfsFlash.{
  Ffs, FlashDevice, byte_at, meta0, meta1, read_flags_loop, read_meta, erase_block_size,
}
use sapphire_os.FfsFlash.Mount.{all_blank, is_blank}

module _ {D : Type 0} (d : FlashDevice D) where
  -- both places gave this byte of flags, one after the other
  abbrev pub FlagsRead : ℕ → ℕ → Type 0
  FlagsRead b v =
      (f : D) × (byte_at 0 (d.read (meta0 b + 1) 1 f).0 ≡ v)
      × (byte_at 0 (d.read (meta1 b + 1) 1 (d.read (meta0 b + 1) 1 f).1).0 ≡ v)

  -- the two places gave different flags
  abbrev pub FlagsDiffer : ℕ → Type 0
  FlagsDiffer b =
      (f : D) × (byte_at 0 (d.read (meta0 b + 1) 1 f).0
        ≢ byte_at 0 (d.read (meta1 b + 1) 1 (d.read (meta0 b + 1) 1 f).1).0)

  -- a part of the block was read that is not erased
  abbrev pub NotBlank : ℕ → Type 0
  NotBlank b =
      (addr : ℕ) × (f : D) × (meta0 b ≤ addr)
      × (addr < meta0 b + erase_block_size)
      × (all_blank (d.read addr 256 f).0 ≡ false)

  -- no header was read that is sound
  abbrev pub HeaderFails : ℕ → Type 0
  HeaderFails b = (s : Ffs D) × (t : Ffs D) × (read_meta d b s ≡ ok (none, t))

  -- the reasons for a list
  abbrev pub Reason : ListName → ℕ → Type 0
  Reason ListName.free b = FlagsRead b 0xff
  Reason ListName.dirty b =
      ((v : ℕ) × (v ≢ 0xff) × (v ≢ 0xbf) × FlagsRead b v)
      ⊎ HeaderFails b
      ⊎ FlagsDiffer b
      ⊎ NotBlank b
  Reason (ListName.file j) b = Unit

  flags-again :
      (k b : ℕ) (f : D)
      → FlagsDiffer b
      → FlagsRead b (read_flags_loop d k b f).0
        ⊎ (FlagsDiffer b × ((read_flags_loop d k b f).0 ≡ 0))
  unfolding read_flags_loop
  flags-again zero b f differ = inr (differ, refl)
  flags-again (suc k) b f differ =
      let one = (d.read (meta0 b + 1) 1 f).1 in
      let flags0 = byte_at 0 (d.read (meta0 b + 1) 1 f).0 in
      let flags1 = byte_at 0 (d.read (meta1 b + 1) 1 one).0 in
      elim (Bool-cases (flags0 == flags1)) [
        | inl same ↦ rw (read_flags_loop, same) (inl (f, refl, sym (==→eq flags0 flags1 same)))
        | inr other ↦
            rw (read_flags_loop, other) (flags-again k b (d.read (meta1 b + 1) 1 one).1 differ)
      ]

  -- the flags that three tries give, or 0 where the two places never agree
  pub flags-cases :
      (k b : ℕ) (f : D)
      → FlagsRead b (read_flags_loop d (suc k) b f).0
        ⊎ (FlagsDiffer b × ((read_flags_loop d (suc k) b f).0 ≡ 0))
  unfolding read_flags_loop
  flags-cases k b f =
      let one = (d.read (meta0 b + 1) 1 f).1 in
      let flags0 = byte_at 0 (d.read (meta0 b + 1) 1 f).0 in
      let flags1 = byte_at 0 (d.read (meta1 b + 1) 1 one).0 in
      elim (Bool-cases (flags0 == flags1)) [
        | inl same ↦ rw (read_flags_loop, same) (inl (f, refl, sym (==→eq flags0 flags1 same)))
        | inr other ↦
            let apart : flags0 ≢ flags1 = ground (arith, other) in
            rw (read_flags_loop, other) (flags-again k b (d.read (meta1 b + 1) 1 one).1 (f, apart))
      ]

  -- a block that is not blank has a part that is not
  pub is_blank-part :
      (parts addr : ℕ) (f : D)
      → (is_blank d parts addr f).0 ≡ false
      → (a : ℕ) × (g : D) × (addr ≤ a)
        × (a < addr + parts * 256)
        × (all_blank (d.read a 256 g).0 ≡ false)
  unfolding is_blank
  is_blank-part zero addr f e = cc
  is_blank-part (suc parts) addr f e = elim (Bool-cases (all_blank (d.read addr 256 f).0)) [
    | inr here ↦ (addr, f, omega arith, omega arith, here)
    | inl blank ↦
        let (a, g, low, high, is) =
          is_blank-part parts (addr + 256) (d.read addr 256 f).1 (rw (is_blank, blank) at e) in
        (a, g, omega arith, omega arith, is)
  ]

  pub is_blank-NotBlank :
      (b : ℕ) (f : D) → (is_blank d (erase_block_size / 256) (meta0 b) f).0 ≡ false → NotBlank b
  is_blank-NotBlank b f e =
      let (a, g, low, high, is) = is_blank-part (erase_block_size / 256) (meta0 b) f e in
      (a, g, low, omega arith, is)

  -- the outcome of the reading of the flags
  pub not_free :
      (b v : ℕ)
      → FlagsRead b v ⊎ (FlagsDiffer b × (v ≡ 0))
      → v ≢ 0xff
      → v ≢ 0xbf
      → Reason ListName.dirty b
  not_free b v (inl read) one two = inl (v, one, two, read)
  not_free b v (inr (differ, none_read)) one two = inr (inr (inl differ))

  pub surely :
      (b v w : ℕ) → FlagsRead b v ⊎ (FlagsDiffer b × (v ≡ 0)) → v ≡ w → 0 < w → FlagsRead b w
  surely b v w (inl read) is positive = rw is at read
  surely b v w (inr (differ, none_read)) is positive = absurd (omega (arith, is, none_read))
