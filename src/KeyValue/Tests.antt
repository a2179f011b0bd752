-- ===== src/KeyValue/Tests.antt =====
-- A table with a variable of two bytes, and a file that is never opened.
use sapphire_os.Prelude.{
  Returns, pos, ℕ, ◌≤◌, ◌<◌, ◌≡◌, refl, ◌⊎◌, inl, inr, true, none, some, List, [], ◌∷◌, arith,
}
use sapphire_os.Types.{type_size}
use sapphire_os.KeyValue.{KvMeta, File, KeyValues, search_table, lookup_meta, no_entry}
use sapphire_os.KeyValue.Items.{kv_set, kv_get}
use sapphire_os.KeyValue.Lookup.{Indexed, Looked, lookup_meta-Looked}
use sapphire_os.KeyValue.Variables.{kv_get-kv_set}

abbrev no_file : File ℕ
no_file = record {
  open_read = λ f. none;
  open_write = λ f. none;
  read = λ n f. ([], f);
  write = λ bytes f. f;
  tell = λ f. 0;
  seek = λ p f. f;
  close = λ f. f;
}

abbrev counter : KvMeta ℕ
counter = record { group = 2; id = 5; type = pos 4; flags = 0; ptr = some 100; handler = none }

abbrev table : List (KvMeta ℕ)
table = counter ∷ []

abbrev at_start : KeyValues ℕ ℕ
at_start = record {
  kv_index = λ k. no_entry;
  kv_index_insert = 0;
  vars = λ a. 7;
  modules = 0;
  file = 0;
  safe_mode = true;
}

at_start-Indexed : Indexed table at_start
at_start-Indexed = record {
  entries = λ k l used. absurd (elim used [ inl group ↦ group refl | inr id ↦ id refl ]);
  inserts = omega arith;
}

lookup_meta-Looked_example : Returns (Looked table 2 5 at_start) (lookup_meta table 2 5 at_start)
lookup_meta-Looked_example =
    lookup_meta-Looked table 2 5 at_start (inl (λ e. omega (arith, e))) at_start-Indexed

kv_get-kv_set_example :
    Returns
      (λ (status, t).
        (status ≡ pos 0)
        × ((c : ℕ) → (c < 100) ⊎ (102 ≤ c) → t.vars c ≡ 7)
        × Returns
            (λ (result, bytes, u). (result ≡ pos 0) × (bytes ≡ 3 ∷ 4 ∷ []))
            (kv_get no_file table 1 2 5 (0 ∷ 0 ∷ []) 2 t))
      (kv_set no_file table 1 [] 2 5 (3 ∷ 4 ∷ []) 2 at_start)
unfolding type_size search_table
kv_get-kv_set_example =
    kv_get-kv_set no_file table 1 2 5 0 100 [] (3 ∷ 4 ∷ []) (0 ∷ 0 ∷ []) counter at_start refl
      (record { at_address = refl; no_handler = refl; writable = refl; in_memory = refl }) refl refl
      refl (inl (λ e. omega (arith, e))) at_start-Indexed
