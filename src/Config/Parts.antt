-- ===== src/Config/Parts.antt =====
-- One round of the loop of `write_param` of src/config.c.
use sapphire_os.Prelude.{
  ◌==◌, ==→eq, Bool-cases, length, same_bytes_self, minus_one, ◌>>=◌, Returns-bind, Returns-mono,
  Returns, pos, returns, ℕ, ◌<◌, ◌≡◌, refl, sym, ap, ◌∙◌, ◌≢◌, ◌↔◌, ◌⊎◌, inl, inr, List, arith,
}
use sapphire_os.System.{set_warnings}
use sapphire_os.Config.{
  Eeprom, Config, field, total_blocks, empty_block, index_size, warn_config_full,
}
use sapphire_os.Config.Store.{get_free_block, erase_block, remove_entries}
use sapphire_os.Config.Params.{Written, full, done, write_part}
use sapphire_os.Config.Cells.{IsReliable, block, read_block-block}
use sapphire_os.Config.Blocks.{
  remove_entries-cases, write_block-written, erase_block-erased, Others,
}
use sapphire_os.Config.Sound.{Matches, Sound, seek_block-Sought, free_block_from-free}
use sapphire_os.Config.Replaced.{Holds, Replaced, Replaced-Sound, Replaced-Holds}

module _ {E : Type 0} (d : Eeprom E) where
  -- no block is free
  abbrev pub IsFull : E → Type 0
  IsFull e = (b : ℕ) → b < total_blocks → field 0 (block d e b) ≢ empty_block

  -- The parts other than one are as before.
  abbrev pub OthersHeld : ℕ → ℕ → E → E → Type 0
  OthersHeld parameter i e g =
      (other : List ℕ)
      → field 0 other ≢ empty_block
      → (field 0 other ≢ parameter) ⊎ (field 2 other ≢ i)
      → Holds d e other ↔ Holds d g other

  -- the outcome of a round: the EEPROM is full, or the part is there
  pub data PartWritten (parameter i : ℕ) (bytes : List ℕ) (s : Config E) : Written E → Type 0 where
    was_full :
        IsFull s.eeprom
        → PartWritten parameter i bytes s
            (full (record s { kernel = set_warnings warn_config_full s.kernel }))
    was_done :
        (t : Config E)
        → t.kernel ≡ s.kernel
        → Sound d t
        → Holds d t.eeprom bytes
        → OthersHeld parameter i s.eeprom t.eeprom
        → PartWritten parameter i bytes s (done t)

  pub PartWritten-cases :
      (parameter i : ℕ) (bytes : List ℕ) (s : Config E) (out : Written E)
      → PartWritten parameter i bytes s out
      → (IsFull s.eeprom
          × (out ≡ full (record s { kernel = set_warnings warn_config_full s.kernel })))
        ⊎ ((t : Config E) × (out ≡ done t)
            × (t.kernel ≡ s.kernel)
            × Sound d t
            × Holds d t.eeprom bytes
            × OthersHeld parameter i s.eeprom t.eeprom)
  PartWritten-cases parameter i bytes s _ (was_full all_used) = inl (all_used, refl)
  PartWritten-cases parameter i bytes s _ (was_done t kernel sound held others) =
      inr (t, refl, kernel, sound, held, others)

  module _ (r : IsReliable d) (parameter i : ℕ) (bytes : List ℕ) (used : parameter ≢ empty_block)
      (id_of : field 0 bytes ≡ parameter) (number_of : field 2 bytes ≡ i)
      (size : length bytes ≡ 12) where
    get_free_block-free :
        (e : E)
        → Returns
            (λ found.
              ((found ≡ minus_one) × IsFull e)
              ⊎ ((b : ℕ) × (found ≡ pos b)
                  × (b < total_blocks)
                  × (field 0 (block d e b) ≡ empty_block)))
            (get_free_block d e)
    unfolding get_free_block
    get_free_block-free e =
        Returns-mono (free_block_from-free d total_blocks 0 e (omega arith)) λ found out. elim out [
          | inr there ↦ inr there
          | inl (nothing, nowhere) ↦ inl (nothing, λ b l. nowhere b (omega arith) l)
        ]

    finished :
        (s t u : Config E) (f : ℕ)
        → t.eeprom ≡ s.eeprom
        → u.kernel ≡ s.kernel
        → u.cfg_index_insert ≡ t.cfg_index_insert
        → Replaced d parameter i t.eeprom u.eeprom f bytes
        → ((k : ℕ)
            → k < index_size
            → (u.cfg_index k).id ≢ empty_block
            → (u.cfg_index k ≡ t.cfg_index k)
              × (Matches d t.eeprom parameter i (t.cfg_index k).block_number → ⊥))
        → Sound d t
        → PartWritten parameter i bytes s (done u)
    finished s t u f same kernel insert replaced index sound =
        was_done u kernel
          (Replaced-Sound d parameter i t.eeprom u.eeprom f bytes replaced used id_of number_of t u
            refl refl insert index sound)
          (f, replaced.inside, replaced.new)
          (rw (← same)
            (Replaced-Holds d parameter i t.eeprom u.eeprom f bytes replaced used id_of number_of))

    -- the part was not there before
    added :
        (s t : Config E) (f : ℕ) (g : E)
        → t.eeprom ≡ s.eeprom
        → t.kernel ≡ s.kernel
        → Sound d t
        → f < total_blocks
        → field 0 (block d t.eeprom f) ≡ empty_block
        → block d g f ≡ bytes
        → Others d f t.eeprom g
        → ((b : ℕ) → b < total_blocks → Matches d t.eeprom parameter i b → ⊥)
        → PartWritten parameter i bytes s (done (record t { eeprom = g }))
    added s t f g same kernel sound l free new others nowhere =
        finished s t (record t { eeprom = g }) f same kernel refl
          (record {
            inside = l;
            free = free;
            new = new;
            others = λ j m apart. inl (others j m apart, nowhere j m);
          })
          (λ k m in_use. (refl, λ it. nowhere (t.cfg_index k).block_number it.inside it)) sound

    -- the part was in another block, which is erased
    moved :
        (s t : Config E) (f o : ℕ) (g : E)
        → t.eeprom ≡ s.eeprom
        → t.kernel ≡ s.kernel
        → Sound d t
        → f < total_blocks
        → field 0 (block d t.eeprom f) ≡ empty_block
        → block d g f ≡ bytes
        → Others d f t.eeprom g
        → Matches d t.eeprom parameter i o
        → Returns
            (λ u. PartWritten parameter i bytes s (done u))
            (erase_block d o (record t { eeprom = g }))
    moved s t f o g same kernel sound l free new others was =
        let apart : o ≢ f = λ e. used (sym was.id_of ∙ rw e free) in
        Returns-mono (erase_block-erased d r o (record t { eeprom = g }) was.inside)
          λ u (erased, kept, is). rw is (
            finished s t
              (record t { eeprom = u.eeprom; cfg_index = remove_entries index_size o t.cfg_index })
              f same kernel refl
              (record {
                inside = l;
                free = free;
                new = kept f l (λ e. apart (sym e)) ∙ new;
                others = λ j m other. elim (Bool-cases (j == o)) [
                  | inl here ↦ let at : j ≡ o = ==→eq j o here in inr (rw at was, rw at erased)
                  | inr there ↦ inl (
                    kept j m (ground arith) ∙ others j m other,
                    λ it.
                        let at = sound.unique parameter i j o used it was in
                        ground (arith, at, there),
                  )
                ];
              })
              (λ k m in_use. elim (remove_entries-cases index_size o k t.cfg_index m) [
                | inl gone ↦ absurd (in_use (ap (λ entry. entry.id) gone))
                | inr (stays, number) ↦
                    (stays, λ it. number (sound.unique parameter i _ o used it was))
              ])
              sound)

    -- On a working EEPROM a round never fails.
    pub write_part-PartWritten :
        (s : Config E)
        → Sound d s
        → Returns (PartWritten parameter i bytes s) (write_part d parameter bytes i s)
    unfolding write_part
    write_part-PartWritten s sound = Returns-bind (get_free_block-free s.eeprom) λ free is_free.
        elim is_free [
          | inl (none_free, all_used) ↦ rw none_free (returns (was_full all_used))
          | inr (f, found, l, empty) ↦ rw found (
              Returns-bind (seek_block-Sought d parameter i s used sound)
                λ (old, t) (same, kernel, sound', sought).
                  let free_there : field 0 (block d t.eeprom f) ≡ empty_block = rw same empty in
                  Returns-bind (write_block-written d r f bytes t.eeprom l size) λ g (new, others).
                    rw (read_block-block d f g l, ◌>>=◌, new, same_bytes_self bytes)
                      (elim sought [
                        | inl (none_old, nowhere) ↦ rw none_old (
                            returns (
                              added s t f g same kernel sound' l free_there new others
                                (rw same nowhere)))
                        | inr (o, found_old, was) ↦ rw found_old (
                            Returns-bind
                              (moved s t f o g same kernel sound' l free_there new others
                                (rw same was))
                              λ u out. returns out)
                      ]))
        ]
