-- ===== src/Config/Sound.antt =====
-- The invariant of the blocks and their index, and the searches of src/config.c.
use mathlib.Core.Path.{subst}
use sapphire_os.Prelude.{
  ◌==◌, if◌then◌else◌, ==→eq, Bool-cases, minus_one, ℤ, ◌>>=◌, Returns-bind, Returns-mono, Returns,
  pos, returns, ℕ, zero, suc, ◌+◌, ◌%◌, ◌^◌, ◌≤◌, ◌<◌, ◌≡◌, refl, ◌≢◌, ◌⊎◌, inl, inr, false, ◌&&◌,
  none, some, arith,
}
use sapphire_os.Config.{Eeprom, Config, CfgIndex, field, total_blocks, empty_block, index_size}
use sapphire_os.Config.Store.{
  add_to_index, seek_index, seek_eeprom, seek_stored, seek_block, free_block_from,
}
use sapphire_os.Config.Cells.{block, read_block_id-field, read_block_number-field}

module _ {E : Type 0} (d : Eeprom E) where
  -- the block has this parameter and this number
  pub record Matches (e : E) (id n b : ℕ) : Type 0 where
    pub inside : b < total_blocks
    pub id_of : field 0 (block d e b) ≡ id
    pub number_of : field 2 (block d e b) ≡ n

  -- No two blocks hold the same part of a parameter, and an entry of the index that is in use tells
  -- where the first part of its parameter is.
  pub record Sound (s : Config E) : Type 0 where
    pub unique :
        (id n b c : ℕ)
        → id ≢ empty_block
        → Matches s.eeprom id n b
        → Matches s.eeprom id n c
        → b ≡ c
    pub indexed :
        (k : ℕ)
        → k < index_size
        → (s.cfg_index k).id ≢ empty_block
        → Matches s.eeprom (s.cfg_index k).id 0 (s.cfg_index k).block_number
    pub inserts : s.cfg_index_insert < index_size

  -- a search of the blocks gives one that matches, or there is none
  seek_eeprom-found :
      (k i id n : ℕ) (e : E)
      → i + k ≤ total_blocks
      → Returns
          (λ found.
            ((found ≡ none) × ((b : ℕ) → i ≤ b → b < i + k → Matches e id n b → ⊥))
            ⊎ ((b : ℕ) × (found ≡ some b) × Matches e id n b))
          (seek_eeprom d k i id n e)
  unfolding seek_eeprom
  seek_eeprom-found zero i id n e l = returns (inl (refl, λ b p q. absurd (omega arith)))
  seek_eeprom-found (suc k) i id n e l =
      let first = read_block_id-field d i e (omega arith) in
      let second = read_block_number-field d i e (omega arith) in
      elim (Bool-cases ((field 0 (block d e i) == id) && (field 2 (block d e i) == n))) [
        | inl hit ↦
            rw (first, second, ◌>>=◌, hit)
              (returns (
                inr (
                  i,
                  refl,
                  record { inside = omega arith; id_of = ground arith; number_of = ground arith },
                )))
        | inr miss ↦
            rw (first, second, ◌>>=◌, miss)
              (Returns-mono (seek_eeprom-found k (i + 1) id n e (omega arith)) λ found out.
                elim out [
                  | inr there ↦ inr there
                  | inl (nothing, nowhere) ↦
                      inl (nothing, λ b p q m. elsewhere k i id n e b miss p q m nowhere)
                ])
      ]
    where
      elsewhere :
          (k i id n : ℕ) (e : E) (b : ℕ)
          → ((field 0 (block d e i) == id) && (field 2 (block d e i) == n)) ≡ false
          → i ≤ b
          → b < i + suc k
          → Matches e id n b
          → ((c : ℕ) → i + 1 ≤ c → c < i + 1 + k → Matches e id n c → ⊥)
          → ⊥
      elsewhere k i id n e b miss p q m nowhere = elim (Bool-cases (i == b)) [
        | inl here ↦
            let same = ==→eq i b here in
            let id_here : field 0 (block d e i) ≡ id = rw same m.id_of in
            let number_here : field 2 (block d e i) ≡ n = rw same m.number_of in
            ground (arith, miss, id_here, number_here)
        | inr there ↦ nowhere b (ground arith) (omega arith) m
      ]

  -- the outcome of a search for a block
  abbrev pub Sought : Config E → ℕ → ℕ → ℤ × Config E → Type 0
  Sought s id n (found, t) =
      (t.eeprom ≡ s.eeprom)
      × (t.kernel ≡ s.kernel)
      × Sound t
      × (((found ≡ minus_one) × ((b : ℕ) → b < total_blocks → Matches s.eeprom id n b → ⊥))
          ⊎ ((b : ℕ) × (found ≡ pos b) × Matches s.eeprom id n b))

  seek_index-found :
      (k i id : ℕ) (index : ℕ → CfgIndex)
      → (seek_index k i id index ≡ none)
        ⊎ ((j : ℕ) × (j < i + k)
            × ((index j).id ≡ id)
            × (seek_index k i id index ≡ some (index j).block_number))
  unfolding seek_index
  seek_index-found zero i id index = inl refl
  seek_index-found (suc k) i id index = elim (Bool-cases ((index i).id == id)) [
    | inl hit ↦ inr (i, omega arith, ==→eq _ id hit, rw hit refl)
    | inr miss ↦ elim (seek_index-found k (i + 1) id index) [
      | inl nothing ↦ inl (rw miss nothing)
      | inr (j, l, same, found) ↦ inr (j, omega arith, same, rw miss found)
    ]
  ]

  add_to_index-same :
      (id b : ℕ) (s : Config E)
      → ((add_to_index id b s).eeprom ≡ s.eeprom) × ((add_to_index id b s).kernel ≡ s.kernel)
  unfolding add_to_index
  add_to_index-same id b s = (refl, refl)

  add_to_index-Sound :
      (s : Config E) (id b : ℕ) → Sound s → Matches s.eeprom id 0 b → Sound (add_to_index id b s)
  unfolding add_to_index
  add_to_index-Sound s id b sound m =
      let small : b % 2 ^ 8 ≡ b = omega (arith, m.inside) in
      let entry : CfgIndex = record { id = id; block_number = b % 2 ^ 8 } in
      record {
        unique = sound.unique;
        indexed = λ k l used. elim (Bool-cases (s.cfg_index_insert == k)) [
          | inl new ↦ rw new (rw small m)
          | inr old ↦ rw old (
              sound.indexed k l
                (subst (λ t. (if t then entry else s.cfg_index k).id ≢ empty_block) old used))
        ];
        inserts = ground (arith, sound.inserts);
      }

  seek_stored-Sought :
      (id n : ℕ) (s : Config E) → Sound s → Returns (Sought s id n) (seek_stored d id n s)
  unfolding seek_stored
  seek_stored-Sought id n s sound =
      Returns-bind (seek_eeprom-found total_blocks 0 id n s.eeprom (omega arith)) λ found out.
        elim out [
          | inl (nothing, nowhere) ↦
              rw nothing
                (returns (refl, refl, sound, inl (refl, λ b l m. nowhere b (omega arith) l m)))
          | inr (b, there, m) ↦ rw there (elim (Bool-cases (n == 0)) [
            | inr later ↦ rw later (returns (refl, refl, sound, inr (b, refl, m)))
            | inl first ↦
                let zeroth : n ≡ 0 = ==→eq n 0 first in
                let same = add_to_index-same id b s in
                rw first (
                  returns (
                    same.0,
                    same.1,
                    add_to_index-Sound s id b sound (rw (← zeroth) m),
                    inr (b, refl, m),
                  ))
          ])
        ]

  pub seek_block-Sought :
      (id n : ℕ) (s : Config E)
      → id ≢ empty_block
      → Sound s
      → Returns (Sought s id n) (seek_block d id n s)
  unfolding seek_block
  seek_block-Sought id n s used sound = elim (Bool-cases (n == 0)) [
    | inr later ↦ rw (seek_block, later) (seek_stored-Sought id n s sound)
    | inl first ↦
        let zeroth : n ≡ 0 = ==→eq n 0 first in
        elim (seek_index-found index_size 0 id s.cfg_index) [
          | inl nothing ↦ rw (seek_block, first, nothing) (seek_stored-Sought id n s sound)
          | inr (j, l, same, found) ↦
              let m = sound.indexed j l (rw same used) in
              rw (seek_block, first, found)
                (returns (
                  refl,
                  refl,
                  sound,
                  inr ((s.cfg_index j).block_number, refl, rw (zeroth, ← same) m),
                ))
        ]
  ]

  -- the search for a free block
  pub free_block_from-free :
      (k i : ℕ) (e : E)
      → i + k ≤ total_blocks
      → Returns
          (λ found.
            ((found ≡ minus_one)
              × ((b : ℕ) → i ≤ b → b < i + k → field 0 (block d e b) ≢ empty_block))
            ⊎ ((b : ℕ) × (found ≡ pos b)
                × (b < total_blocks)
                × (field 0 (block d e b) ≡ empty_block)))
          (free_block_from d k i e)
  unfolding free_block_from
  free_block_from-free zero i e l = returns (inl (refl, λ b p q. absurd (omega arith)))
  free_block_from-free (suc k) i e l =
      let first = read_block_id-field d i e (omega arith) in
      elim (Bool-cases (field 0 (block d e i) == empty_block)) [
        | inl hit ↦
            rw (first, ◌>>=◌, hit) (returns (inr (i, refl, omega arith, ==→eq _ empty_block hit)))
        | inr miss ↦
            rw (first, ◌>>=◌, miss)
              (Returns-mono (free_block_from-free k (i + 1) e (omega arith)) λ found out. elim out [
                | inr there ↦ inr there
                | inl (nothing, nowhere) ↦ inl (
                  nothing,
                  λ b p q. elim (Bool-cases (i == b)) [
                    | inl here ↦ rw (← ==→eq i b here) λ empty. ground (arith, miss, empty)
                    | inr there ↦ nowhere b (ground arith) (omega arith)
                  ],
                )
              ])
      ]
