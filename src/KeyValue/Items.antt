-- ===== src/KeyValue/Items.antt =====
-- Setting and getting one item, with its variable, its place in the file and its handler:
-- src/keyvalue.c.
use sapphire_os.Prelude.{
  ltb, leb, ◌==◌, if◌then◌else◌, update, bit, length, split_at, take, drop, repeat, minus_one, ℤ,
  ◌>>=◌, within, Run, pos, negsuc, ok, out_of_fuel, ℕ, zero, suc, ◌+◌, ◌-◌, ◌%◌, ◌^◌, Bool, true,
  false, ◌&&◌, none, some, List, [], ◌∷◌, ◌++◌,
}
use sapphire_os.Types.{type_size}
use sapphire_os.KeyValue.{
  KvMeta, File, KeyValues, item, error, lookup_meta, group_app_base, op_set, op_get,
  read_only_digit, persist_digit, read_only, output_too_small, in_safe_mode,
}

-- `sizeof(kv_persist_block_header_t)`
abbrev pub header_size : ℕ
header_size = 3

-- `KV_PERSIST_BLOCK_DATA_LEN`
abbrev pub block_data_len : ℕ
block_data_len = 512

-- a field of a structure, by its place
abbrev pub byte_at : ℕ → List ℕ → ℕ
byte_at i [] = 0
byte_at zero (b ∷ bs) = b
byte_at (suc i) (b ∷ bs) = byte_at i bs

-- a signed byte, as it is stored
abbrev pub type_byte : ℤ → ℕ
type_byte (pos n) = n % 2 ^ 8
type_byte (negsuc n) = 255 - n % 2 ^ 8

-- the test of a header for an item
abbrev pub is_item : {S : Type 0} → KvMeta S → List ℕ → Bool
is_item meta hdr = (byte_at 0 hdr == meta.group) && (byte_at 1 hdr == meta.id)

-- `n` bytes of memory
abbrev pub read_vars : (ℕ → ℕ) → ℕ → ℕ → List ℕ
read_vars vars address zero = []
read_vars vars address (suc n) = vars address ∷ read_vars vars (address + 1) n

-- `memcpy` to memory
abbrev pub write_vars : ℕ → List ℕ → (ℕ → ℕ) → ℕ → ℕ
write_vars address [] vars = vars
write_vars address (b ∷ bs) vars = write_vars (address + 1) bs (update vars address b)

-- a buffer after bytes were stored at its start
abbrev pub overlay : List ℕ → List ℕ → List ℕ
overlay bytes buffer = bytes ++ drop (length bytes) buffer

module _ {S F : Type 0} (fs : File F) where
  open fs use {open_read, open_write, read, write, tell, seek, close}

  -- the loop of `kv_i8_persist_set` and of `kv_i8_persist_get`, on fuel: the header that was read
  -- last, and the file
  unfoldable pub seek_item : ℕ → KvMeta S → List ℕ → F → Run (List ℕ × F)
  seek_item zero meta hdr f = out_of_fuel
  seek_item (suc fuel) meta hdr f =
      let (bytes, one) = read header_size f in
      let header = overlay bytes hdr in
      elim (length bytes == header_size) [
        | false ↦ ok (header, one)
        | true ↦ elim (is_item meta header) [
          | true ↦ ok (header, seek (tell one - header_size) one)
          | false ↦ seek_item fuel meta header (seek (tell one + block_data_len) one)
        ]
      ]

  -- `kv_i8_persist_set`; the result is whether the file was opened
  unfoldable pub persist_set : ℕ → KvMeta S → List ℕ → List ℕ → F → Run (Bool × F)
  persist_set fuel meta value stack f = elim (open_write f) [
    | none ↦ ok (false, f)
    | some opened ↦ do
      (hdr, found) ← seek_item fuel meta stack opened
      let headed = write (meta.group ∷ meta.id ∷ type_byte meta.type ∷ []) found
      let part = take block_data_len value
      let whole = write (part ++ repeat (block_data_len - length part) 0) headed
      ok (true, close whole)
  ]

  -- `kv_i8_persist_get`: whether all the bytes were read, and the bytes that were
  unfoldable pub persist_get : ℕ → KvMeta S → ℕ → F → Run (Bool × List ℕ × F)
  persist_get fuel meta len f = elim (open_read f) [
    | none ↦ ok (false, [], f)
    | some opened ↦ do
      (hdr, found) ← seek_item fuel meta (repeat header_size 0) opened
      let (bytes, last) = if is_item meta hdr then read len found else ([], found)
      ok (length bytes == len, bytes, close last)
  ]

  -- the call of the handler that ends `kv_i8_internal_set` and `kv_i8_internal_get`: the status, and
  -- the data after it
  unfoldable pub call_handler :
      ℕ → KvMeta S → List ℕ → KeyValues S F → Run (ℤ × List ℕ × KeyValues S F)
  call_handler op meta data_bytes s = elim meta.handler [
    | none ↦ ok (pos 0, data_bytes, s)
    | some handler ↦ do
      (status, bytes, modules) ← handler op meta.group meta.id data_bytes s.modules
      ok (status, bytes, record s { modules = modules })
  ]

  -- the variable of an item, set
  abbrev pub set_var : KvMeta S → List ℕ → KeyValues S F → KeyValues S F
  set_var meta value s = elim meta.ptr [
    | none ↦ s
    | some address ↦ record s { vars = write_vars address value s.vars }
  ]

  -- `kv_i8_internal_set`, whose header holds `stack` before it is filled
  unfoldable pub internal_set :
      ℕ → List ℕ → KvMeta S → List ℕ → ℕ → KeyValues S F → Run (ℤ × KeyValues S F)
  internal_set fuel stack meta value len s = elim (s.safe_mode && leb group_app_base meta.group) [
    | true ↦ ok (in_safe_mode, s)
    | false ↦ elim (bit meta.flags read_only_digit == 1) [
      | true ↦ ok (read_only, s)
      | false ↦ do
        let size = type_size meta.type
        let copy_len = if ltb len size then len else size
        (part, rest) ← within (split_at copy_len value)
        file ←
            if bit meta.flags persist_digit == 1
            then (persist_set fuel meta part stack s.file >>= λ (opened, f). ok f)
            else ok s.file
        let t = set_var meta part (record s { file = file })
        (status, bytes, u) ← call_handler op_set meta part t
        ok (status, u)
    ]
  ]

  -- `kv_i8_set`
  unfoldable pub kv_set :
      List (KvMeta S) → ℕ → List ℕ → ℕ → ℕ → List ℕ → ℕ → KeyValues S F → Run (ℤ × KeyValues S F)
  kv_set table fuel stack group id value len s = do
    (found, t) ← lookup_meta table group id s
    elim found [
      | error status ↦ ok (status, t)
      | item place meta ↦ internal_set fuel stack meta value len t
    ]

  -- the variable of an item, copied over the start of a buffer
  abbrev pub get_var : KvMeta S → ℕ → List ℕ → KeyValues S F → List ℕ
  get_var meta copy_len buffer s = elim meta.ptr [
    | none ↦ buffer
    | some address ↦ overlay (read_vars s.vars address copy_len) buffer
  ]

  -- `kv_i8_internal_get`, on a buffer; the result is the status and the buffer after it
  unfoldable pub internal_get :
      ℕ → KvMeta S → List ℕ → ℕ → KeyValues S F → Run (ℤ × List ℕ × KeyValues S F)
  internal_get fuel meta buffer max_len s = elim (s.safe_mode && leb group_app_base meta.group) [
    | true ↦ ok (in_safe_mode, buffer, s)
    | false ↦ elim (ltb max_len (type_size meta.type)) [
      | true ↦ ok (output_too_small, buffer, s)
      | false ↦ do
        let copy_len = type_size meta.type
        (stored, file) ←
            if bit meta.flags persist_digit == 1
            then (persist_get fuel meta max_len s.file >>= λ (all, bytes, f).
                ok (overlay (if all then bytes else repeat max_len 0) buffer, f))
            else ok (buffer, s.file)
        let shown = get_var meta copy_len stored s
        (status, bytes, t) ←
            call_handler op_get meta (take copy_len shown) (record s { file = file })
        ok (status, overlay bytes shown, t)
    ]
  ]

  -- `kv_i8_get`
  unfoldable pub kv_get :
      List (KvMeta S) → ℕ → ℕ → ℕ → List ℕ → ℕ → KeyValues S F → Run (ℤ × List ℕ × KeyValues S F)
  kv_get table fuel group id buffer max_len s = do
    (found, t) ← lookup_meta table group id s
    elim found [
      | error status ↦ ok (status, buffer, t)
      | item place meta ↦ internal_get fuel meta buffer max_len t
    ]

  -- `kv_i8_persist`, whose buffers hold `stack` before they are filled
  unfoldable pub persist :
      List (KvMeta S) → ℕ → List ℕ → ℕ → ℕ → KeyValues S F → Run (ℤ × KeyValues S F)
  persist table fuel stack group id s = do
    (found, t) ← lookup_meta table group id s
    elim found [
      | error status ↦ ok (status, t)
      | item place meta ↦ elim (bit meta.flags persist_digit == 1) [
        | false ↦ ok (minus_one, t)
        | true ↦ do
          (status, value, u) ← internal_get fuel meta stack 512 t
          (opened, f) ←
              persist_set fuel meta (take (type_size meta.type) value) (take header_size stack)
                u.file
          ok (if opened then pos 0 else minus_one, record u { file = f })
      ]
    ]
