-- ===== src/KeyValue/Batch.antt =====
-- Setting and getting many items by one message: src/keyvalue.c. The logs are left out.
use sapphire_os.Prelude.{
  ltb, ◌==◌, if◌then◌else◌, length, take, drop, ℤ, ◌>>=◌, Run, pos, negsuc, ok, out_of_fuel, ℕ,
  zero, suc, ◌-◌, ◌⊎◌, inl, inr, Bool, true, false, ◌||◌, List, [], ◌∷◌, ◌++◌,
}
use sapphire_os.Types.{type_size, invalid_size}
use sapphire_os.KeyValue.{
  KvMeta, File, KeyValues, Found, item, error, lookup_meta, type_mismatch, output_too_small,
}
use sapphire_os.KeyValue.Items.{type_byte, byte_at, internal_set, internal_get}

-- `sizeof(kv_param_t)` and `sizeof(kv_param_status_t)`
abbrev pub param_size : ℕ
param_size = 3

-- a byte, as an `int8_t`
abbrev pub signed_byte : ℕ → ℤ
signed_byte b = if ltb b 128 then pos b else negsuc (255 - b)

-- `kv_param_status_t`
abbrev pub status_bytes : ℕ → ℕ → ℤ → List ℕ
status_bytes group id status = group ∷ id ∷ type_byte status ∷ []

-- `param->type == meta.type`
abbrev pub same_type : ℤ → ℤ → Bool
same_type a b = type_byte a == type_byte b

-- the status of a search
abbrev pub status_of : {S : Type 0} → Found S → ℤ
status_of (error status) = status
status_of (item place meta) = pos 0

module _ {S F : Type 0} (fs : File F) (table : List (KvMeta S)) (fuel : ℕ) (stack : List ℕ) where
  -- the loop of `kv_i16_batch_set`: the input that is left and the room for output; the result is
  -- the output. Each round takes three bytes at least, so as many rounds as bytes are enough.
  unfoldable pub batch_set_loop : ℕ → List ℕ → ℕ → KeyValues S F → Run (List ℕ × KeyValues S F)
  batch_set_loop zero input room s = elim (length input == 0) [
    | true ↦ ok ([], s)
    | false ↦ out_of_fuel
  ]
  batch_set_loop (suc rounds) input room s =
      elim ((length input == 0) || ltb room param_size || ltb (length input) param_size) [
        | true ↦ ok ([], s)
        | false ↦ do
          let group = byte_at 0 input
          let id = byte_at 1 input
          let type = signed_byte (byte_at 2 input)
          let param_len = type_size type
          (found, t) ← lookup_meta table group id s
          elim ((param_len == invalid_size) || ltb (length (drop param_size input)) param_len) [
            | true ↦ ok (status_bytes group id (status_of found), t)
            | false ↦ do
              let var_data = drop param_size input
              (status, u) ← elim found [
                | error status ↦ ok (status, t)
                | item place meta ↦ elim (same_type type meta.type) [
                  | false ↦ ok (type_mismatch, t)
                  | true ↦ do
                    (done, u) ← internal_set fs fuel stack meta var_data param_len t
                    ok (meta.type, u)
                ]
              ]
              (rest, v) ← batch_set_loop rounds (drop param_len var_data) (room - param_size) u
              ok (status_bytes group id status ++ rest, v)
          ]
      ]

  -- `kv_i16_batch_set`
  unfoldable pub batch_set : List ℕ → ℕ → KeyValues S F → Run (List ℕ × KeyValues S F)
  batch_set input max_output_len s = batch_set_loop (length input) input max_output_len s

  -- the loop of `kv_i16_batch_get`, on an output buffer
  unfoldable pub batch_get_loop : ℕ → List ℕ → List ℕ → KeyValues S F → Run (List ℕ × KeyValues S F)
  batch_get_loop zero input output s = elim (length input == 0) [
    | true ↦ ok ([], s)
    | false ↦ out_of_fuel
  ]
  batch_get_loop (suc rounds) input output s =
      elim ((length input == 0)
        || ltb (length output) param_size
        || ltb (length input) param_size) [
          | true ↦ ok ([], s)
          | false ↦ do
            let group = byte_at 0 input
            let id = byte_at 1 input
            let type = signed_byte (byte_at 2 input)
            let param_len = type_size type
            let room = drop param_size output
            (found, t) ← lookup_meta table group id s
            elim (param_len == invalid_size) [
              | true ↦ ok (status_bytes group id (status_of found), t)
              | false ↦ elim found [
                | error status ↦ do
                  (rest, u) ← batch_get_loop rounds (drop param_size input) room t
                  ok (status_bytes group id status ++ rest, u)
                | item place meta ↦ elim (same_type type meta.type) [
                  | false ↦ do
                    (rest, u) ← batch_get_loop rounds (drop param_size input) room t
                    ok (status_bytes group id type_mismatch ++ rest, u)
                  | true ↦ elim (ltb (length room) param_len) [
                    | true ↦ ok (status_bytes group id (pos 0), t)
                    | false ↦ do
                      (status, value, u) ←
                          internal_get fs fuel meta (take param_len room) param_len t
                      (rest, v) ←
                          batch_get_loop rounds (drop param_size input) (drop param_len room) u
                      ok (status_bytes group id meta.type ++ (take param_len value ++ rest), v)
                  ]
                ]
              ]
            ]
        ]

  -- `kv_i16_batch_get`; `inl` is an error
  unfoldable pub batch_get : List ℕ → List ℕ → KeyValues S F → Run ((ℤ ⊎ List ℕ) × KeyValues S F)
  batch_get input output s = elim (length output == 0) [
    | true ↦ ok (inl output_too_small, s)
    | false ↦ do (bytes, t) ← batch_get_loop (length input) input output s; ok (inr bytes, t)
  ]
