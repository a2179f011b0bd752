-- ===== src/FfsFlash/Tests.antt =====
-- A device in memory: an array of bytes. The tests run on an erased one.
use sapphire_os.Prelude.{
  ltb, leb, ◌==◌, if◌then◌else◌, Bool-cases, length, Returns, ℕ, ◌+◌, ◌*◌, ◌≤◌, ◌<◌, ◌≡◌, refl, ap₂,
  ◌∙◌, ◌⊎◌, inl, inr, true, false, ◌&&◌, some, List, [], ◌∷◌, arith,
}
use sapphire_os.FfsFlash.{FlashDevice, Ffs, read_meta, write_meta, scan_index, no_pages}
use sapphire_os.FfsFlash.Retry.{MetaRead, read_meta-MetaRead}
use sapphire_os.FfsFlash.Index.{Newest, free_count, first_free, scan_index-Newest}
use sapphire_os.FfsFlash.Device.{cells, cells-eq, IsReliable, read_meta-write_meta}
use sapphire_os.FfsFlash.Mount.{no_blocks, mount}
use sapphire_os.FfsFlash.Mount.Verify.{Mounted, mount-Mounted}

abbrev store : ℕ → List ℕ → (ℕ → ℕ) → ℕ → ℕ
store addr [] f a = f a
store addr (b ∷ bs) f a = if a == addr then b else store (addr + 1) bs f a

store-elsewhere :
    (addr a : ℕ) (bytes : List ℕ) (f : ℕ → ℕ)
    → (a < addr) ⊎ (addr + length bytes ≤ a)
    → store addr bytes f a ≡ f a
store-elsewhere addr a [] f out = refl
store-elsewhere addr a (b ∷ bs) f out = ground (arith, store-elsewhere (addr + 1) a bs f)

cells-store :
    (addr : ℕ) (bytes : List ℕ) (f : ℕ → ℕ) → cells (store addr bytes f) addr (length bytes) ≡ bytes
cells-store addr [] f = refl
cells-store addr (b ∷ bs) f =
    ap₂ (λ x xs. x ∷ xs) (ground arith)
      (cells-eq (store addr (b ∷ bs) f) (store (addr + 1) bs f) (addr + 1) (length bs)
          (λ a l m. ground arith)
        ∙ cells-store (addr + 1) bs f)

abbrev in_memory : FlashDevice (ℕ → ℕ)
in_memory = record {
  read = λ addr n f. (cells f addr n, f);
  write = λ addr bytes f. if ltb addr 4096 then f else store addr bytes f;
  erase_4k = λ addr f a. if leb addr a && ltb a (addr + 4096) then 0xff else f a;
  capacity = λ f. 40 * 4096;
}

abbrev contents : (ℕ → ℕ) → ℕ → ℕ
contents f a = f a

in_memory-IsReliable : IsReliable in_memory contents
in_memory-IsReliable = record {
  read_cells = λ addr n f. refl;
  read_keeps = λ addr n a f. refl;
  write_erased = λ addr bytes f behind h.
      let written : ltb addr 4096 ≡ false = ground arith in rw written (cells-store addr bytes f);
  write_elsewhere = λ addr a bytes f out. elim (Bool-cases (ltb addr 4096)) [
    | inl first ↦ rw first refl
    | inr written ↦ rw written (store-elsewhere addr a bytes f out)
  ];
}

abbrev erased : Ffs (ℕ → ℕ)
erased = record {
  flash = λ a. 0xff;
  kernel = record { stats = λ i. 0; error = 0; warnings = 0 };
  blocks = no_blocks 7;
}

abbrev header : List ℕ
header = 1 ∷ 0xbf ∷ 0 ∷ 0xff ∷ 0xff ∷ 0xff ∷ 0xff ∷ 0xff ∷ []

read_meta-MetaRead_example : Returns (MetaRead in_memory 2 3 erased) (read_meta in_memory 2 erased)
unfolding no_blocks
read_meta-MetaRead_example = read_meta-MetaRead in_memory 2 erased (omega arith)

read_meta-write_meta_example :
    Returns
      (λ (done, t).
        (done ≡ true) × Returns (λ (found, u). found ≡ some header) (read_meta in_memory 2 t))
      (write_meta in_memory 2 header erased)
unfolding no_blocks
read_meta-write_meta_example =
    read_meta-write_meta in_memory contents in_memory-IsReliable 2 header erased (omega arith) refl
      (omega arith) (omega arith) (λ a l m. refl)

mount-Mounted_example :
    Returns (λ t. Mounted in_memory t.blocks) (mount in_memory false (λ n. ltb n 8000) erased)
mount-Mounted_example = mount-Mounted in_memory (λ n. ltb n 8000) erased (omega arith) refl

abbrev entries : List ℕ
entries = 0 ∷ 3 ∷ 1 ∷ 3 ∷ 0xff ∷ []

scan_index-Newest_example :
    let info = scan_index 0 entries no_pages in
    (info.free_pages ≡ free_count entries)
    × (info.phy_next_free ≡ first_free 0 entries)
    × Newest entries info.logical_last_page info.phy_last_page
scan_index-Newest_example =
    scan_index-Newest entries
      (
        inr (omega arith),
        (inr (omega arith), (inr (omega arith), (inr (omega arith), (inl refl, tt)))),
      )
      (omega arith)
