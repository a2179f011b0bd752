-- ===== src/Config/Params.antt =====
-- Writing and reading parameters, which may take several blocks, and what src/config.c builds on it.
use Prim.Native.Nat.{bit_and, bit_or}
use sapphire_os.Prelude.{
  ltb, ◌==◌, if◌then◌else◌, update, length, same_bytes, split_at, take, drop, repeat, is_neg,
  minus_one, ℤ, add8, ◌>>=◌, ◌>>◌, assert, within, Run, pos, negsuc, ok, assert_failed, out_of_fuel,
  ℕ, zero, suc, ◌+◌, ◌-◌, ◌*◌, ◌/◌, ◌%◌, ◌^◌, Bool, true, false, not, ◌&&◌, ◌||◌, List, [], ◌++◌,
}
use sapphire_os.System.{set_warnings}
use sapphire_os.Ip.{Addr, is_zeroes, addr_compare}
use sapphire_os.Types.{type_size}
use sapphire_os.Config.{
  Eeprom, Config, data_len, total_blocks, empty_block, warn_config_full, warn_config_write_fail,
  param_ip_address, param_ip_subnet_mask, param_dns_server, param_internet_gateway, group_sys_cfg,
  kv_op_set, kv_op_get, param_short_address, param_pan_id, param_manual_ip, param_manual_subnet,
  param_enable_manual_ip, pan_id_not_present, all_ones, field, addr_of, addr_bytes, byte_of,
  block_bytes,
}
use sapphire_os.Config.Store.{erase_block, read_block, seek_block, write_block, get_free_block}

-- what one round of the loop of `write_param` ends with: no block is free, the block was written
-- badly, or it was written
pub data Written (E : Type 0) : Type 0 where
  full : Config E → Written E
  failed : Config E → Written E
  done : Config E → Written E

-- an address that a device can have: neither all zeroes nor all ones
abbrev pub is_usable : Addr → Bool
is_usable a = not (is_zeroes a) && not (addr_compare a all_ones)

-- the mark of a block as present: a processor of 16 bits shifts a 1 that goes sixteen places or
-- further out of its register
unfoldable pub block_bit : ℕ → ℕ
block_bit number = if ltb number 16 then 2 ^ number else 0

module _ {E : Type 0} (d : Eeprom E) where
  -- one round of the loop of `write_param`, for the bytes of one block
  unfoldable pub write_part : ℕ → List ℕ → ℕ → Config E → Run (Written E)
  write_part parameter param i s = get_free_block d s.eeprom >>= λ free. elim free [
    | negsuc n ↦ ok (full (record s { kernel = set_warnings warn_config_full s.kernel }))
    | pos block ↦ do
      (old, t) ← seek_block d parameter i s
      eeprom ← write_block d block param t.eeprom
      check ← read_block d block eeprom
      elim (same_bytes check param) [
        | false ↦ do
          u ← erase_block d block (record t { eeprom = eeprom })
          ok (failed (record u { kernel = set_warnings warn_config_write_fail u.kernel }))
        | true ↦ elim old [
          | negsuc n ↦ ok (done (record t { eeprom = eeprom }))
          | pos b ↦ do u ← erase_block d b (record t { eeprom = eeprom }); ok (done u)
        ]
      ]
  ]

  -- the loop of `write_param`, on fuel: a block that is written badly is tried again
  unfoldable pub write_parts : ℕ → ℕ → ℤ → ℕ → ℕ → List ℕ → ℕ → Config E → Run (Config E)
  write_parts zero parameter type n_blocks i value len s = out_of_fuel
  write_parts (suc fuel) parameter type n_blocks i value len s = elim (ltb i n_blocks) [
    | false ↦ ok s
    | true ↦ do
      let copy_len = if ltb data_len len then data_len else len
      (part, rest) ← within (split_at copy_len value)
      out ← write_part parameter (block_bytes parameter type i part) i s
      elim out [
        | full t ↦ ok t
        | failed t ↦ write_parts fuel parameter type n_blocks i value len t
        | done t ↦ write_parts fuel parameter type n_blocks (add8 i 1) rest (len - copy_len) t
      ]
  ]

  -- the loop of `read_param`: `k` more blocks, from block `i` on; the bytes that it stores
  unfoldable pub read_parts : ℕ → ℕ → ℕ → ℕ → ℤ → Config E → Run (ℤ × List ℕ × Config E)
  read_parts zero parameter i len block s = ok (pos 0, [], s)
  read_parts (suc k) parameter i len block s = do
    (found, t) ← if i == 0 then ok (block, s) else seek_block d parameter i s
    elim found [
      | negsuc n ↦ ok (minus_one, [], t)
      | pos b ↦ do
        param ← read_block d b t.eeprom
        let copy_len = if ltb data_len len then data_len else len
        (status, rest, u) ← read_parts k parameter (add8 i 1) (len - copy_len) (pos b) t
        ok (status, take copy_len (drop 4 param) ++ rest, u)
    ]

  module _ (kv_type : ℕ → ℤ) (kv_len : ℕ → ℤ) where
    -- `write_param`
    unfoldable pub write_param : ℕ → ℕ → List ℕ → Config E → Run (Config E)
    write_param fuel parameter value s =
        let len = type_size (kv_type parameter) in
        write_parts fuel parameter (kv_type parameter) ((len / data_len + 1) % 2 ^ 8) 0 value len s

    -- `read_param`: the status, and the bytes that it stores at the pointer
    unfoldable pub read_param : ℕ → Config E → Run (ℤ × List ℕ × Config E)
    read_param parameter s = seek_block d parameter 0 s >>= λ (block, t). elim (kv_len parameter) [
      | negsuc n ↦ ok (minus_one, [], t)
      | pos len ↦ elim block [
        | negsuc n ↦ ok (minus_one, repeat len 0, t)
        | pos b ↦ read_parts ((len / data_len + 1) % 2 ^ 8) parameter 0 len (pos b) t
      ]
    ]

    -- the three tests of `clean_blocks` that condemn a block
    unfoldable pub is_bad : List ℕ → (ℕ → ℕ) → Bool
    is_bad block present =
        is_neg (kv_type (field 0 block))
        || not (byte_of (kv_type (field 0 block)) == field 1 block)
        || not (bit_and (present (field 0 block)) (block_bit (field 2 block)) == 0)

    -- the loop of `clean_blocks`: `k` blocks from block `i` on
    unfoldable pub clean_from : ℕ → ℕ → (ℕ → ℕ) → Config E → Run (Config E)
    clean_from zero i present s = ok s
    clean_from (suc k) i present s = do
      block ← read_block d i s.eeprom
      elim (field 0 block == empty_block) [
        | true ↦ clean_from k (i + 1) present s
        | false ↦ do
          t ← if is_bad block present then erase_block d i s else ok s
          let id = field 0 block
          clean_from k (i + 1) (update present id (bit_or (present id) (block_bit (field 2 block))))
              t
      ]

    -- `clean_blocks`
    unfoldable pub clean_blocks : Config E → Run (Config E)
    clean_blocks s = clean_from total_blocks 0 (λ _. 0) s

    -- `cfg_v_set`
    unfoldable pub set_param : ℕ → ℕ → List ℕ → Config E → Run (Config E)
    set_param fuel parameter value s = do
      assert (not (parameter == param_ip_address))
      assert (not (parameter == param_ip_subnet_mask))
      assert (not (parameter == param_dns_server))
      assert (not (parameter == param_internet_gateway))
      write_param fuel parameter value s

    -- `cfg_i8_get`
    unfoldable pub get_param : ℕ → Config E → Run (ℤ × List ℕ × Config E)
    get_param parameter s =
        if parameter == param_ip_address
        then ok (pos 0, addr_bytes s.ip_config.ip, s)
        else if parameter == param_ip_subnet_mask
        then ok (pos 0, addr_bytes s.ip_config.subnet, s)
        else if parameter == param_dns_server
        then ok (pos 0, addr_bytes s.ip_config.dns_server, s)
        else if parameter == param_internet_gateway
        then ok (pos 0, addr_bytes s.ip_config.internet_gateway, s)
        else read_param parameter s

    -- `cfg_i8_kv_handler`; a get gives the bytes that it stores
    unfoldable pub kv_handler : ℕ → ℕ → ℕ → ℕ → List ℕ → Config E → Run (ℤ × List ℕ × Config E)
    kv_handler fuel op group id value s = do
      assert (group == group_sys_cfg)
      elim (op == kv_op_get) [
        | true ↦ get_param id s >>= λ (status, bytes, t). ok (pos 0, bytes, t)
        | false ↦ elim (op == kv_op_set) [
          | true ↦ set_param fuel id value s >>= λ t. ok (pos 0, [], t)
          | false ↦ assert_failed
        ]
      ]

    -- a buffer after `cfg_i8_get` has stored a parameter there
    abbrev pub get_into : ℕ → List ℕ → Config E → Run (List ℕ × Config E)
    get_into parameter buffer s = do
      (status, bytes, t) ← get_param parameter s
      ok (bytes ++ drop (length bytes) buffer, t)

    -- `cfg_b_get_boolean`, whose buffer holds `stack` before
    unfoldable pub get_boolean : ℕ → List ℕ → Config E → Run (Bool × Config E)
    get_boolean parameter stack s = do
      (value, t) ← get_into parameter stack s
      ok (not (field 0 value == 0), t)

    -- `cfg_u16_get_short_addr`, in the same way
    unfoldable pub get_short_addr : List ℕ → Config E → Run (ℕ × Config E)
    get_short_addr stack s = do
      (addr, t) ← get_into param_short_address stack s
      ok (field 0 addr + field 1 addr * 2 ^ 8, t)

    -- `cfg_b_wcom_configured`, which reads past `cfg_i8_get`
    unfoldable pub wcom_configured : List ℕ → Config E → Run (Bool × Config E)
    wcom_configured stack s = do
      (status, bytes, t) ← read_param param_pan_id s
      let value = bytes ++ drop (length bytes) stack
      ok (not (field 0 value + field 1 value * 2 ^ 8 == pan_id_not_present), t)

    -- `cfg_b_manual_ip`, in the same way
    unfoldable pub manual_ip : List ℕ → Config E → Run (Bool × Config E)
    manual_ip stack s = do
      (ip, t) ← get_into param_manual_ip stack s
      (subnet, u) ← get_into param_manual_subnet stack t
      elim (is_usable (addr_of ip) && is_usable (addr_of subnet)) [
        | true ↦ get_boolean param_enable_manual_ip stack u
        | false ↦ ok (false, u)
      ]
