-- ===== src/Config/Replaced.antt =====
-- One round of the loop of `write_param` of src/config.c, as a change of the parts that the EEPROM
-- holds.
use sapphire_os.Prelude.{
  ◌==◌, ==→eq, Bool-cases, ℕ, ◌<◌, ◌≡◌, sym, ap, ◌∙◌, ◌≢◌, ◌↔◌, ◌⊎◌, inl, inr, List, arith,
}
use sapphire_os.Config.{Eeprom, Config, field, total_blocks, empty_block, index_size}
use sapphire_os.Config.Cells.{block}
use sapphire_os.Config.Sound.{Matches, Sound}

module _ {E : Type 0} (d : Eeprom E) where
  -- the EEPROM holds a block with these bytes
  abbrev pub Holds : E → List ℕ → Type 0
  Holds e bytes = (b : ℕ) × (b < total_blocks) × (block d e b ≡ bytes)

  module _ (parameter i : ℕ) where
    -- A free block got new bytes, the block that held the same part before was erased, and the other
    -- blocks stay as they are.
    pub record Replaced (e g : E) (f : ℕ) (bytes : List ℕ) : Type 0 where
      pub inside : f < total_blocks
      pub free : field 0 (block d e f) ≡ empty_block
      pub new : block d g f ≡ bytes
      pub others :
          (j : ℕ)
          → j < total_blocks
          → j ≢ f
          → ((block d g j ≡ block d e j) × (Matches d e parameter i j → ⊥))
            ⊎ (Matches d e parameter i j × (field 0 (block d g j) ≡ empty_block))

    module _ (e g : E) (f : ℕ) (bytes : List ℕ) (r : Replaced e g f bytes)
        (used : parameter ≢ empty_block) (id_of : field 0 bytes ≡ parameter)
        (number_of : field 2 bytes ≡ i) where
      open r use {inside, free, new, others}

      -- a part that is there is the new one, or it was there
      Matches-cases :
          (id n b : ℕ)
          → id ≢ empty_block
          → Matches d g id n b
          → ((b ≡ f) × (id ≡ parameter) × (n ≡ i))
            ⊎ ((b ≢ f)
                × Matches d e id n b
                × (block d g b ≡ block d e b)
                × (Matches d e parameter i b → ⊥))
      Matches-cases id n b in_use m = elim (Bool-cases (b == f)) [
        | inl here ↦
            let same : b ≡ f = ==→eq b f here in
            let bytes_of : block d g b ≡ bytes = rw same new in
            inl (
              same,
              sym m.id_of ∙ ap (λ l. field 0 l) bytes_of ∙ id_of,
              sym m.number_of ∙ ap (λ l. field 2 l) bytes_of ∙ number_of,
            )
        | inr there ↦
            let apart : b ≢ f = ground arith in
            elim (others b m.inside apart) [
              | inr (was, erased) ↦ absurd (in_use (sym m.id_of ∙ erased))
              | inl (kept, not_it) ↦ inr (
                apart,
                record {
                  inside = m.inside;
                  id_of = ap (λ l. field 0 l) (sym kept) ∙ m.id_of;
                  number_of = ap (λ l. field 2 l) (sym kept) ∙ m.number_of;
                },
                kept,
                not_it,
              )
            ]
      ]

      Replaced-unique :
          ((id n b c : ℕ) → id ≢ empty_block → Matches d e id n b → Matches d e id n c → b ≡ c)
          → (id n b c : ℕ) → id ≢ empty_block
          → Matches d g id n b
          → Matches d g id n c
          → b ≡ c
      Replaced-unique unique id n b c in_use one two = elim (Matches-cases id n b in_use one) [
        | inl (b_is, id_is, n_is) ↦ elim (Matches-cases id n c in_use two) [
          | inl (c_is, x, y) ↦ b_is ∙ sym c_is
          | inr (x, was, y, not_it) ↦ absurd (not_it (rw (← id_is, ← n_is) was))
        ]
        | inr (p, was, q, not_it) ↦ elim (Matches-cases id n c in_use two) [
          | inl (c_is, id_is, n_is) ↦ absurd (not_it (rw (← id_is, ← n_is) was))
          | inr (x, was_too, y, z) ↦ unique id n b c in_use was was_too
        ]
      ]

      -- a block that was in use and did not hold the part is still there
      Replaced-kept :
          (id n b : ℕ)
          → id ≢ empty_block
          → Matches d e id n b
          → (Matches d e parameter i b → ⊥)
          → block d g b ≡ block d e b
      Replaced-kept id n b in_use m not_it =
          let apart : b ≢ f = λ same. in_use (sym m.id_of ∙ rw same free) in
          elim (others b m.inside apart) [
            | inl (kept, x) ↦ kept
            | inr (was, x) ↦ absurd (not_it was)
          ]

      -- the other parts are there as before
      pub Replaced-Holds :
          (other : List ℕ)
          → field 0 other ≢ empty_block
          → (field 0 other ≢ parameter) ⊎ (field 2 other ≢ i)
          → Holds e other ↔ Holds g other
      Replaced-Holds other in_use differs = (forth, back)
        where
          not_it : (b : ℕ) → block d e b ≡ other → Matches d e parameter i b → ⊥
          not_it b is m = elim differs [
            | inl id_differs ↦ id_differs (ap (λ l. field 0 l) (sym is) ∙ m.id_of)
            | inr number_differs ↦ number_differs (ap (λ l. field 2 l) (sym is) ∙ m.number_of)
          ]

          whole :
              (h : E) (b : ℕ)
              → b < total_blocks
              → block d h b ≡ other
              → Matches d h (field 0 other) (field 2 other) b
          whole h b l is = record {
            inside = l;
            id_of = ap (λ bs. field 0 bs) is;
            number_of = ap (λ bs. field 2 bs) is;
          }

          forth : Holds e other → Holds g other
          forth (b, l, is) = (
            b,
            l,
            Replaced-kept (field 0 other) (field 2 other) b in_use (whole e b l is) (not_it b is)
                ∙ is,
          )

          back : Holds g other → Holds e other
          back (b, l, is) =
              elim (Matches-cases (field 0 other) (field 2 other) b in_use (whole g b l is)) [
                | inr (x, m, kept, y) ↦ (b, l, sym kept ∙ is)
                | inl (x, id_is, n_is) ↦ absurd (elim differs [
                  | inl id_differs ↦ id_differs id_is
                  | inr number_differs ↦ number_differs n_is
                ])
              ]

      pub Replaced-Sound :
          (s t : Config E)
          → s.eeprom ≡ e
          → t.eeprom ≡ g
          → t.cfg_index_insert ≡ s.cfg_index_insert
          → ((k : ℕ)
              → k < index_size
              → (t.cfg_index k).id ≢ empty_block
              → (t.cfg_index k ≡ s.cfg_index k)
                × (Matches d e parameter i (s.cfg_index k).block_number → ⊥))
          → Sound d s
          → Sound d t
      Replaced-Sound s t was now insert index sound = record {
        unique = rw now (Replaced-unique (rw (← was) sound.unique));
        indexed = λ k l in_use.
            let (same, not_it) = index k l in_use in
            let used_before : (s.cfg_index k).id ≢ empty_block = rw (← same) in_use in
            let m : Matches d e (s.cfg_index k).id 0 (s.cfg_index k).block_number =
              rw (← was) (sound.indexed k l used_before) in
            let kept =
              Replaced-kept (s.cfg_index k).id 0 (s.cfg_index k).block_number used_before m
                not_it in
            rw (now, same)
              (record {
                inside = m.inside;
                id_of = ap (λ bs. field 0 bs) kept ∙ m.id_of;
                number_of = ap (λ bs. field 2 bs) kept ∙ m.number_of;
              });
        inserts = rw insert sound.inserts;
      }
