-- ===== src/KeyValue.antt =====
-- src/keyvalue.c: the items that other parts of the system read and set by group and number.
-- The table of the items, which the linker collects, is a parameter. An item may have a variable, a
-- handler of its module, and a place in a file. The variables are bytes of memory, the state of the
-- modules is a parameter that their handlers act on, and src/fs.c is an interface.
pub mod Items
pub mod Batch
pub mod Lookup
pub mod Variables
mod Tests
use sapphire_os.Prelude.{
  leb, ◌==◌, if◌then◌else◌, update, get_elem?, ℤ, add8, ◌>>=◌, ◌>>◌, within, Run, pos, negsuc, ok,
  ℕ, zero, suc, ◌+◌, Bool, true, false, ◌&&◌, Option, none, some, List, [], ◌∷◌,
}
use sapphire_os.Types.{type_size, invalid_size}

-- `kv_handler_t`: the operation, the group, the number and the data; the result is the status and
-- the data after it
abbrev pub Handler : Type 0 → Type 0
Handler S = ℕ → ℕ → ℕ → List ℕ → S → Run (ℤ × List ℕ × S)

-- `kv_meta_t`, without the name
pub record KvMeta (S : Type 0) : Type 0 where
  pub group : ℕ
  pub id : ℕ
  pub type : ℤ
  pub flags : ℕ
  pub ptr : Option ℕ
  pub handler : Option (Handler S)

-- `kv_index_t`; the pointer is the place in the table
pub record KvIndex : Type 0 where
  pub group : ℕ
  pub id : ℕ
  pub ptr : ℕ

-- the functions of src/fs.h on the one file that this code opens, "kv_data"
pub record File (F : Type 0) : Type 0 where
  pub open_read : F → Option F
  pub open_write : F → Option F
  pub read : ℕ → F → List ℕ × F
  pub write : List ℕ → F → F
  pub tell : F → ℕ
  pub seek : ℕ → F → F
  pub close : F → F

pub record KeyValues (S F : Type 0) : Type 0 where
  pub kv_index : ℕ → KvIndex
  pub kv_index_insert : ℕ
  pub vars : ℕ → ℕ
  pub modules : S
  pub file : F
  pub safe_mode : Bool

-- `KV_INDEX_ENTRIES`
abbrev pub index_entries : ℕ
index_entries = 8

-- `KV_GROUP_APP_BASE`
abbrev pub group_app_base : ℕ
group_app_base = 32

-- `KV_OP_SET` and `KV_OP_GET`
abbrev pub op_set : ℕ
op_set = 1

abbrev pub op_get : ℕ
op_get = 2

-- `KV_FLAGS_READ_ONLY` and `KV_FLAGS_PERSIST`, as the digits of the flags
abbrev pub read_only_digit : ℕ
read_only_digit = 0

abbrev pub persist_digit : ℕ
persist_digit = 2

-- `KV_ERR_STATUS_NOT_FOUND` and the other errors
abbrev pub not_found : ℤ
not_found = negsuc 0

abbrev pub read_only : ℤ
read_only = negsuc 1

abbrev pub invalid_type : ℤ
invalid_type = negsuc 2

abbrev pub output_too_small : ℤ
output_too_small = negsuc 3

abbrev pub type_mismatch : ℤ
type_mismatch = negsuc 5

abbrev pub in_safe_mode : ℤ
in_safe_mode = negsuc 6

-- the entries of the index after `memset` to 0xff
abbrev pub no_entry : KvIndex
no_entry = record { group = 0xff; id = 0xff; ptr = 0xffff }

-- the outcome of a search of the table: the place and the item, or an error
pub data Found (S : Type 0) : Type 0 where
  item : ℕ → KvMeta S → Found S
  error : ℤ → Found S

module _ {S : Type 0} where
  -- the second loop of `kv_i8_lookup_meta`, from a place of the table on
  unfoldable pub search_table : List (KvMeta S) → ℕ → ℕ → ℕ → Found S
  search_table [] place group id = error not_found
  search_table (meta ∷ rest) place group id = elim ((meta.group == group) && (meta.id == id)) [
    | true ↦ if type_size meta.type == invalid_size then error invalid_type else item place meta
    | false ↦ search_table rest (place + 1) group id
  ]

-- the first loop of `kv_i8_lookup_meta`: `k` entries of the index from entry `i` on
unfoldable pub search_index : ℕ → ℕ → ℕ → ℕ → (ℕ → KvIndex) → Option ℕ
search_index zero i group id index = none
search_index (suc k) i group id index =
    let rest = search_index k (i + 1) group id index in
    if ((index i).group == group) && ((index i).id == id) then some (index i).ptr else rest

module _ {S F : Type 0} (table : List (KvMeta S)) where
  -- what `kv_i8_lookup_meta` does where the index does not know the item
  unfoldable pub lookup_table : ℕ → ℕ → KeyValues S F → Run (Found S × KeyValues S F)
  lookup_table group id s = elim (search_table table 0 group id) [
    | error status ↦ ok (error status, s)
    | item place meta ↦
        let next = add8 s.kv_index_insert 1 in
        ok (
          item place meta,
          record s {
            kv_index =
                update s.kv_index s.kv_index_insert
                  (record { group = group; id = id; ptr = place });
            kv_index_insert = if leb index_entries next then 0 else next;
          },
        )
  ]

  -- `kv_i8_lookup_meta`
  unfoldable pub lookup_meta : ℕ → ℕ → KeyValues S F → Run (Found S × KeyValues S F)
  lookup_meta group id s = elim (search_index index_entries 0 group id s.kv_index) [
    | some place ↦ within (get_elem? table place) >>= λ meta. ok (item place meta, s)
    | none ↦ lookup_table group id s
  ]

  -- `kv_i16_len`
  unfoldable pub kv_len : ℕ → ℕ → KeyValues S F → Run (ℤ × KeyValues S F)
  kv_len group id s = do
    (found, t) ← lookup_meta group id s
    elim found [
      | error status ↦ ok (status, t)
      | item place meta ↦ ok (pos (type_size meta.type), t)
    ]

  -- `kv_i8_type`
  unfoldable pub kv_type : ℕ → ℕ → KeyValues S F → Run (ℤ × KeyValues S F)
  kv_type group id s = do
    (found, t) ← lookup_meta group id s
    elim found [ error status ↦ ok (status, t) | item place meta ↦ ok (meta.type, t) ]
