-- ===== src/KeyValue/Lookup.antt =====
-- The search for an item of src/keyvalue.c, with its index of eight entries.
use mathlib.Core.Path.{subst}
use sapphire_os.Prelude.{
  ◌==◌, if◌then◌else◌, Bool-cases, get_elem?, ℤ, Returns, returns, ℕ, zero, suc, ◌+◌, ◌<◌, ◌≡◌,
  refl, sym, ap, ◌∙◌, ◌≢◌, ◌⊎◌, inl, inr, ◌&&◌, none, some, List, [], ◌∷◌, arith,
}
use sapphire_os.Types.{type_size, invalid_size}
use sapphire_os.KeyValue.{
  KvMeta, KvIndex, KeyValues, not_found, invalid_type, Found, item, error, index_entries,
  search_table, search_index, lookup_table, lookup_meta,
}

-- what is found stands in the table where the search says
search_table-cases :
    {S : Type 0} (metas : List (KvMeta S)) (place group id : ℕ)
    → ((status : ℤ) × (search_table metas place group id ≡ error status))
      ⊎ ((p : ℕ) × (m : KvMeta S) × (search_table metas place group id ≡ item (place + p) m)
          × (get_elem? metas p ≡ some m))
unfolding search_table
search_table-cases [] place group id = inl (not_found, refl)
search_table-cases (meta ∷ rest) place group id =
    elim (Bool-cases ((meta.group == group) && (meta.id == id))) [
      | inl hit ↦ elim (Bool-cases (type_size meta.type == invalid_size)) [
        | inl bad ↦ inl (invalid_type, rw (search_table, hit, bad) refl)
        | inr good ↦
            let here : place + 0 ≡ place = omega arith in
            inr (0, meta, rw (search_table, hit, good, here) refl, refl)
      ]
      | inr miss ↦ elim (search_table-cases rest (place + 1) group id) [
        | inl (status, is) ↦ inl (status, rw (search_table, miss) is)
        | inr (p, m, is, there) ↦
            let later : place + suc p ≡ place + 1 + p = omega arith in
            inr (suc p, m, rw (search_table, miss, later) is, there)
      ]
    ]

search_index-cases :
    (k i group id : ℕ) (index : ℕ → KvIndex)
    → (search_index k i group id index ≡ none)
      ⊎ ((j : ℕ) × (j < i + k)
          × ((index j).group ≡ group)
          × ((index j).id ≡ id)
          × (search_index k i group id index ≡ some (index j).ptr))
unfolding search_index
search_index-cases zero i group id index = inl refl
search_index-cases (suc k) i group id index =
    elim (Bool-cases (((index i).group == group) && ((index i).id == id))) [
      | inl hit ↦ inr (i, omega arith, ground arith, ground arith, rw hit refl)
      | inr miss ↦ elim (search_index-cases k (i + 1) group id index) [
        | inl nothing ↦ inl (rw miss nothing)
        | inr (j, l, same_group, same_id, found) ↦
            inr (j, omega arith, same_group, same_id, rw miss found)
      ]
    ]

module _ {S F : Type 0} (table : List (KvMeta S)) where
  -- An entry of the index that is in use is what a search of the table finds.
  pub record Indexed (s : KeyValues S F) : Type 0 where
    pub entries :
        (k : ℕ)
        → k < index_entries
        → ((s.kv_index k).group ≢ 255) ⊎ ((s.kv_index k).id ≢ 255)
        → (m : KvMeta S) × (search_table table 0 (s.kv_index k).group (s.kv_index k).id
            ≡ item (s.kv_index k).ptr m)
    pub inserts : s.kv_index_insert < index_entries

  -- all but the index is the same
  pub record SameItems (s t : KeyValues S F) : Type 0 where
    pub vars : t.vars ≡ s.vars
    pub modules : t.modules ≡ s.modules
    pub file : t.file ≡ s.file
    pub safe_mode : t.safe_mode ≡ s.safe_mode

  -- the outcome of a search: what the table says, whatever the index holds
  abbrev pub Looked : ℕ → ℕ → KeyValues S F → Found S × KeyValues S F → Type 0
  Looked group id s (found, t) = (found ≡ search_table table 0 group id) × Indexed t × SameItems s t

  lookup_table-Looked :
      (group id : ℕ) (s : KeyValues S F)
      → Indexed s
      → Returns (Looked group id s) (lookup_table table group id s)
  unfolding lookup_table
  lookup_table-Looked group id s indexed = elim (search_table-cases table 0 group id) [
    | inl (status, is) ↦
        rw (lookup_table, is)
          (returns (
            sym is,
            indexed,
            record { vars = refl; modules = refl; file = refl; safe_mode = refl },
          ))
    | inr (p, m, is, there) ↦
        let entry : KvIndex = record { group = group; id = id; ptr = 0 + p } in
        rw (lookup_table, is)
          (returns (
            sym is,
            record {
              entries = λ k l used. elim (Bool-cases (s.kv_index_insert == k)) [
                | inl new ↦ rw new (m, is)
                | inr old ↦ rw old (
                    indexed.entries k l (
                      subst
                        (λ t.
                          ((if t then entry else s.kv_index k).group ≢ 255)
                          ⊎ ((if t then entry else s.kv_index k).id ≢ 255))
                        old used))
              ];
              inserts = ground (arith, indexed.inserts);
            },
            record { vars = refl; modules = refl; file = refl; safe_mode = refl },
          ))
  ]

  -- Whatever searches came before, a search finds what the table holds under the number, or fails as
  -- the search of the table does; only the index changes.
  pub lookup_meta-Looked :
      (group id : ℕ) (s : KeyValues S F)
      → (group ≢ 255) ⊎ (id ≢ 255)
      → Indexed s
      → Returns (Looked group id s) (lookup_meta table group id s)
  unfolding lookup_meta
  lookup_meta-Looked group id s used indexed =
      elim (search_index-cases index_entries 0 group id s.kv_index) [
        | inl nothing ↦ rw (lookup_meta, nothing) (lookup_table-Looked group id s indexed)
        | inr (j, l, same_group, same_id, found) ↦
            let (m, is) = indexed.entries j l (rw (same_group, same_id) used) in
            let is_here : search_table table 0 group id ≡ item (s.kv_index j).ptr m =
              rw (← same_group, ← same_id) is in
            elim (search_table-cases table 0 group id) [
              | inl (status, failed) ↦ cc
              | inr (p, n, at, there) ↦
                  let zeroth : 0 + p ≡ p = omega arith in
                  let same : item (s.kv_index j).ptr m ≡ item p n =
                    sym is_here ∙ at ∙ ap (λ q. item q n) zeroth in
                  let place : (s.kv_index j).ptr ≡ p = cc in
                  let content : m ≡ n = cc in
                  rw (lookup_meta, found, place, there)
                    (returns (
                      rw (← place, ← content) (sym is_here),
                      indexed,
                      record { vars = refl; modules = refl; file = refl; safe_mode = refl },
                    ))
            ]
      ]
