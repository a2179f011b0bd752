-- ===== src/Config/RoundTrip.antt =====
-- Parameters that are written and read back: `write_param` and `read_param` of src/config.c.
use sapphire_os.Prelude.{
  ltb, ◌==◌, if◌then◌else◌, lt→ltb, le→not_ltb, ==→eq, Bool-cases, length, length-append, split_at,
  split_at-append, split_at-total, take, drop, repeat, length-repeat, take-append, ℤ, add8, ◌>>=◌,
  Returns-bind, Returns-mono, Returns, pos, ok, returns, ℕ, zero, suc, ◌+◌, ◌-◌, ◌*◌, ◌/◌, ◌%◌, ◌^◌,
  ◌≤◌, ◌<◌, ◌≡◌, refl, sym, ap, ap₂, ◌∙◌, ◌≢◌, ◌↔◌, ◌⊎◌, inl, inr, some, List, [], ◌∷◌, ◌++◌, arith,
}
use sapphire_os.System.{set_warnings}
use sapphire_os.Types.{type_size}
use sapphire_os.Config.{
  Eeprom, Config, warn_config_full, field, data_len, total_blocks, empty_block, block_bytes,
}
use sapphire_os.Config.Store.{seek_block}
use sapphire_os.Config.Params.{write_parts, write_param, read_parts, read_param}
use sapphire_os.Config.Cells.{IsReliable, block, read_block-block}
use sapphire_os.Config.Sound.{Matches, Sound, seek_block-Sought}
use sapphire_os.Config.Replaced.{Holds}
use sapphire_os.Config.Parts.{IsFull, PartWritten-cases, write_part-PartWritten}

-- the bytes that a block takes of those that are left
abbrev pub copied : ℕ → ℕ
copied len = if ltb data_len len then data_len else len

copied-small : (len : ℕ) → copied len ≤ 8
copied-small len = ground arith

copied-le : (len : ℕ) → copied len ≤ len
copied-le len = ground arith

block_bytes-shape :
    (id : ℕ) (type : ℤ) (n : ℕ) (part : List ℕ)
    → length part ≤ 8
    → (field 0 (block_bytes id type n part) ≡ id)
      × (field 2 (block_bytes id type n part) ≡ n)
      × (length (block_bytes id type n part) ≡ 12)
      × (take (length part) (drop 4 (block_bytes id type n part)) ≡ part)
unfolding block_bytes
block_bytes-shape id type n part l = (
  refl,
  refl,
  omega (
    arith,
    length-append part (repeat (data_len - length part) 0),
    length-repeat (data_len - length part) 0,
  ),
  take-append (length part) part (repeat (data_len - length part) 0) refl,
)

nothing_left : (value : List ℕ) → length value ≡ 0 → value ≡ []
nothing_left [] size = refl
nothing_left (x ∷ xs) size = absurd (omega (arith, size))

module _ {E : Type 0} (d : Eeprom E) where
  -- the parts of a value, from one on, are in the EEPROM
  abbrev pub PartsHeld : E → ℕ → ℤ → ℕ → ℕ → List ℕ → ℕ → Type 0
  PartsHeld e parameter type zero i value len = (value ≡ [])
  PartsHeld e parameter type (suc k) i value len =
      (part : List ℕ) × (rest : List ℕ) × (value ≡ part ++ rest)
      × (length part ≡ copied len)
      × Holds d e (block_bytes parameter type i part)
      × PartsHeld e parameter type k (i + 1) rest (len - copied len)

  module _ (parameter : ℕ) (type : ℤ) (used : parameter ≢ empty_block) where
    -- the search for a part that is there
    part_sought :
        (i : ℕ) (bytes : List ℕ) (first : ℤ) (s : Config E)
        → Sound d s
        → Holds d s.eeprom bytes
        → field 0 bytes ≡ parameter
        → field 2 bytes ≡ i
        → (i ≡ 0 → (b : ℕ) × (first ≡ pos b) × Matches d s.eeprom parameter 0 b)
        → Returns
            (λ (found, t).
              (t.eeprom ≡ s.eeprom)
              × Sound d t
              × (b : ℕ) × (b < total_blocks)
              × (found ≡ pos b)
              × (block d t.eeprom b ≡ bytes))
            (if i == 0 then ok (first, s) else seek_block d parameter i s)
    part_sought i bytes first s sound (b, l, is) id_of number_of known =
        let there : Matches d s.eeprom parameter i b = record {
          inside = l;
          id_of = ap (λ bs. field 0 bs) is ∙ id_of;
          number_of = ap (λ bs. field 2 bs) is ∙ number_of;
        } in
        elim (Bool-cases (i == 0)) [
          | inl zeroth ↦
              let at : i ≡ 0 = ==→eq i 0 zeroth in
              let (c, first_is, m) = known at in
              let same = sound.unique parameter i c b used (rw at m) there in
              rw zeroth (returns (refl, sound, b, l, first_is ∙ ap pos same, is))
          | inr later ↦ rw later (
              Returns-mono (seek_block-Sought d parameter i s used sound)
                λ (found, t) (same, kernel, sound', sought). elim sought [
                  | inl (x, nowhere) ↦ absurd (nowhere b l there)
                  | inr (c, found_is, m) ↦ (
                    same,
                    sound',
                    b,
                    l,
                    found_is ∙ ap pos (sound.unique parameter i c b used m there),
                    rw same is,
                  )
                ])
        ]

    -- reading the parts that are there gives the value
    read_parts-value :
        (k i len : ℕ) (value : List ℕ) (first : ℤ) (s : Config E)
        → i + k < 2 ^ 8
        → Sound d s
        → PartsHeld s.eeprom parameter type k i value len
        → (i ≡ 0 → (b : ℕ) × (first ≡ pos b) × Matches d s.eeprom parameter 0 b)
        → Returns
            (λ (status, bytes, t). (status ≡ pos 0) × (bytes ≡ value))
            (read_parts d k parameter i len first s)
    unfolding read_parts
    read_parts-value zero i len value first s l sound none_left known =
        returns (refl, sym none_left)
    read_parts-value (suc k) i len value first s l sound (part, rest, whole, size, held, later)
          known =
        let (id_of, number_of, all, data_of) =
          block_bytes-shape parameter type i part (omega (arith, size, copied-small len)) in
        let next : add8 i 1 ≡ i + 1 = omega arith in
        Returns-bind
          (part_sought i (block_bytes parameter type i part) first s sound held id_of number_of
            known)
          λ (found, t) (same, sound', b, m, found_is, is).
            rw (found_is, read_block-block d b t.eeprom m, ◌>>=◌, is, next)
              (Returns-bind
                (read_parts-value k (i + 1) (len - copied len) rest (pos b) t (omega arith) sound'
                  (rw same later) λ zeroth. absurd (omega (arith, zeroth)))
                λ (status, bytes, u) (fine, rest_is).
                  returns (fine, ap₂ (λ xs ys. xs ++ ys) (rw (← size) data_of) rest_is ∙ sym whole))

    earlier :
        (i : ℕ) (other : List ℕ)
        → (field 0 other ≢ parameter) ⊎ (field 2 other < i)
        → (field 0 other ≢ parameter) ⊎ (field 2 other ≢ i)
    earlier i other (inl id) = inl id
    earlier i other (inr before) = inr (ground arith)

    sooner :
        (i : ℕ) (other : List ℕ)
        → (field 0 other ≢ parameter) ⊎ (field 2 other < i)
        → (field 0 other ≢ parameter) ⊎ (field 2 other < i + 1)
    sooner i other (inl id) = inl id
    sooner i other (inr before) = inr (omega arith)

    Sound-warned :
        (s : Config E)
        → Sound d s
        → Sound d (record s { kernel = set_warnings warn_config_full s.kernel })
    Sound-warned s sound = record {
      unique = sound.unique;
      indexed = sound.indexed;
      inserts = sound.inserts;
    }

    -- Writing the parts ends with all of them in the EEPROM, or with a full EEPROM.
    write_parts-held :
        (r : IsReliable d) (fuel k i n_blocks len : ℕ) (value : List ℕ) (s : Config E)
        → i + k ≡ n_blocks
        → n_blocks < 2 ^ 8
        → k < fuel
        → length value ≡ len
        → len ≤ 8 * k
        → Sound d s
        → Returns
            (λ t.
              Sound d t
              × ((IsFull d t.eeprom × (t.kernel ≡ set_warnings warn_config_full s.kernel))
                  ⊎ (PartsHeld t.eeprom parameter type k i value len × (t.kernel ≡ s.kernel)))
              × ((other : List ℕ)
                  → field 0 other ≢ empty_block
                  → (field 0 other ≢ parameter) ⊎ (field 2 other < i)
                  → Holds d s.eeprom other ↔ Holds d t.eeprom other))
            (write_parts d fuel parameter type n_blocks i value len s)
    unfolding write_parts
    write_parts-held r zero k i n_blocks len value s sum small enough size room sound =
        absurd (omega arith)
    write_parts-held r (suc fuel) zero i n_blocks len value s sum small enough size room sound =
        rw (write_parts, le→not_ltb i n_blocks (omega (arith, sum)))
          (returns (
            sound,
            inr (nothing_left value (omega (arith, size)), refl),
            λ other p q. (λ h. h, λ h. h),
          ))
    write_parts-held r (suc fuel) (suc k) i n_blocks len value s sum small enough size room sound =
        let (part, rest, whole, cut) =
          split_at-total (copied len) value (omega (arith, size, copied-le len)) in
        let (id_of, number_of, all, data_of) =
          block_bytes-shape parameter type i part (omega (arith, cut, copied-small len)) in
        let next : add8 i 1 ≡ i + 1 = omega (arith, sum) in
        let left : length rest ≡ len - copied len =
          omega (arith, size, cut, ap (λ xs. length xs) whole, length-append part rest) in
        let fits : len - copied len ≤ 8 * k = ground arith in
        let here : split_at (copied len) value ≡ some (part, rest) =
          ap (λ v. split_at (copied len) v) whole ∙ split_at-append (copied len) part rest cut in
        rw (write_parts, lt→ltb i n_blocks (omega (arith, sum)), here)
          (Returns-bind
            (write_part-PartWritten d r parameter i (block_bytes parameter type i part) used id_of
              number_of all s sound)
            λ out written.
              elim (PartWritten-cases d parameter i (block_bytes parameter type i part) s out
                written) [
                  | inl (none_free, is) ↦ rw is (
                      returns (
                        Sound-warned s sound,
                        inl (none_free, refl),
                        λ other p q. (λ h. h, λ h. h),
                      ))
                  | inr (t, is, kernel, sound', held, others) ↦
                      rw (is, next)
                        (Returns-mono
                          (write_parts-held r fuel k (i + 1) n_blocks (len - copied len) rest t
                            (omega (arith, sum)) small (omega arith) left fits sound')
                          λ u (sound'', ends, kept). (
                            sound'',
                            elim ends [
                              | inl (none_free, warned) ↦ inl (none_free, rw (← kernel) warned)
                              | inr (later, same) ↦ inr (
                                (
                                  part,
                                  rest,
                                  whole,
                                  cut,
                                  (kept (block_bytes parameter type i part) (rw id_of used)
                                        (inr (omega (arith, number_of)))).0
                                      held,
                                  later,
                                ),
                                same ∙ kernel,
                              )
                            ],
                            λ other p q.
                                let one = others other p (earlier i other q) in
                                let two = kept other p (sooner i other q) in
                                (λ h. two.0 (one.0 h), λ h. one.1 (two.1 h)),
                          ))
                ])

    first_held :
        (k len : ℕ) (value : List ℕ) (e : E)
        → k ≢ 0
        → PartsHeld e parameter type k 0 value len
        → (b : ℕ) × Matches d e parameter 0 b
    first_held zero len value e some_part held = absurd (some_part refl)
    first_held (suc k) len value e some_part (part, rest, whole, cut, (b, l, is), later) =
        let (id_of, number_of, all, data_of) =
          block_bytes-shape parameter type 0 part (omega (arith, cut, copied-small len)) in
        (
          b,
          record {
            inside = l;
            id_of = ap (λ bs. field 0 bs) is ∙ id_of;
            number_of = ap (λ bs. field 2 bs) is ∙ number_of;
          },
        )

    read_param-held :
        (kv_type kv_len : ℕ → ℤ) (value : List ℕ) (s : Config E)
        → kv_len parameter ≡ pos (type_size type)
        → type_size type ≤ 512
        → Sound d s
        → PartsHeld s.eeprom parameter type
            ((type_size type / data_len + 1) % 2 ^ 8)
            0
            value
            (type_size type)
        → Returns
            (λ (status, bytes, u). (status ≡ pos 0) × (bytes ≡ value))
            (read_param d kv_type kv_len parameter s)
    unfolding read_param
    read_param-held kv_type kv_len value s is_len small sound held =
        let n_blocks = (type_size type / data_len + 1) % 2 ^ 8 in
        let (b, m) = first_held n_blocks (type_size type) value s.eeprom (omega arith) held in
        Returns-bind (seek_block-Sought d parameter 0 s used sound)
          λ (found, t) (same, kernel, sound', sought). rw is_len (elim sought [
            | inl (x, nowhere) ↦ absurd (nowhere b m.inside m)
            | inr (c, is, there) ↦ rw is (
                read_parts-value n_blocks 0 (type_size type) value (pos c) t (omega arith) sound'
                  (rw same held) λ zeroth. (c, refl, rw same there))
          ])

    -- A parameter of a type of at most 512 bytes that is written to a working EEPROM is read as it was
    -- written, or the EEPROM has no free block left, and the warning is raised.
    pub read_param-write_param :
        (r : IsReliable d) (kv_type kv_len : ℕ → ℤ) (fuel : ℕ) (value : List ℕ) (s : Config E)
        → kv_type parameter ≡ type
        → kv_len parameter ≡ pos (type_size type)
        → type_size type ≤ 512
        → length value ≡ type_size type
        → 65 < fuel
        → Sound d s
        → Returns
            (λ t.
              Sound d t
              × ((IsFull d t.eeprom × (t.kernel ≡ set_warnings warn_config_full s.kernel))
                  ⊎ ((t.kernel ≡ s.kernel)
                      × Returns
                          (λ (status, bytes, u). (status ≡ pos 0) × (bytes ≡ value))
                          (read_param d kv_type kv_len parameter t)))
              × ((other : List ℕ)
                  → field 0 other ≢ empty_block
                  → field 0 other ≢ parameter
                  → Holds d s.eeprom other ↔ Holds d t.eeprom other))
            (write_param d kv_type kv_len fuel parameter value s)
    unfolding write_param
    read_param-write_param r kv_type kv_len fuel value s is_type is_len small size enough sound =
        let n_blocks = (type_size type / data_len + 1) % 2 ^ 8 in
        rw is_type (
          Returns-mono
            (write_parts-held r fuel n_blocks 0 n_blocks (type_size type) value s (omega arith)
              (omega arith) (omega arith) size (omega arith) sound)
            λ t (sound', ends, kept). (
              sound',
              elim ends [
                | inl all_used ↦ inl all_used
                | inr (held, same) ↦
                    inr (
                      same,
                      read_param-held kv_type kv_len value t is_len (omega arith) sound' held,
                    )
              ],
              λ other p q. kept other p (inl q),
            ))
