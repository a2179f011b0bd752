-- ===== src/Config/Start.antt =====
-- The default values of all parameters, and the start of src/config.c.
use sapphire_os.Prelude.{
  ◌==◌, if◌then◌else◌, length, same_bytes, drop, repeat, is_neg, ℤ, add16, ◌>>=◌, Run, ok, ℕ, zero,
  suc, ◌+◌, ◌*◌, ◌/◌, ◌%◌, ◌^◌, Bool, true, false, not, ◌&&◌, ◌||◌, List, [], ◌∷◌, ◌++◌,
}
use sapphire_os.Config.{
  Eeprom, Config, field, write_byte, write_bytes, read_bytes, ee_array_size, no_entry, addr_of,
  param_short_address, param_pan_id, param_manual_ip, param_manual_subnet, param_enable_manual_ip,
  pan_id_not_present,
}
use sapphire_os.Config.Params.{set_param, get_param, get_into, get_boolean, is_usable, clean_blocks}
use sapphire_os.Config.Keys.{set_security_key}

-- `CFG_VERSION`
abbrev pub cfg_version : ℕ
cfg_version = 11

-- `CFG_PARAM_VERSION`, and the other parameters that the start uses
abbrev pub param_version : ℕ
param_version = 0

abbrev pub param_mac_address : ℕ
param_mac_address = 5

abbrev pub param_device_id : ℕ
param_device_id = 20

abbrev pub param_firmware_load_count : ℕ
param_firmware_load_count = 35

abbrev pub param_manual_dns_server : ℕ
param_manual_dns_server = 50

abbrev pub param_manual_gateway : ℕ
param_manual_gateway = 51

-- the bytes of a `uint16_t`
abbrev pub u16 : ℕ → List ℕ
u16 n = n % 2 ^ 8 ∷ n / 2 ^ 8 ∷ []

-- `uint8_t zeroes[CFG_STR_LEN]`
abbrev pub zeroes : List ℕ
zeroes = repeat 512 0

-- the parameters that `cfg_v_default_all` sets, in its order
abbrev pub defaults : List (ℕ × List ℕ)
defaults =
    (1, zeroes)
    ∷ (param_manual_ip, repeat 4 0)
    ∷ (param_manual_subnet, repeat 4 0)
    ∷ (param_manual_dns_server, repeat 4 0)
    ∷ (param_manual_gateway, repeat 4 0)
    ∷ (54, repeat 4 0)
    ∷ (param_pan_id, u16 pan_id_not_present)
    ∷ (param_mac_address, zeroes)
    ∷ (param_short_address, u16 0)
    ∷ (8, 0 ∷ [])
    ∷ (12, 0 ∷ [])
    ∷ (45, 0 ∷ [])
    ∷ (param_device_id, zeroes)
    ∷ (27, u16 0)
    ∷ (28, u16 0)
    ∷ (29, u16 0)
    ∷ (30, u16 32)
    ∷ (31, u16 2)
    ∷ (32, u16 8)
    ∷ (13, u16 3)
    ∷ (14, u16 5)
    ∷ (15, u16 0)
    ∷ (17, u16 16)
    ∷ (18, u16 16)
    ∷ (19, u16 16)
    ∷ (37, u16 4)
    ∷ (38, 1 ∷ [])
    ∷ (39, u16 8)
    ∷ (40, u16 3)
    ∷ (41, u16 8)
    ∷ (42, u16 8)
    ∷ (43, u16 8)
    ∷ (44, u16 3)
    ∷ (46, u16 8)
    ∷ (47, u16 8)
    ∷ (36, u16 32768)
    ∷ (52, u16 60)
    ∷ (param_version, u16 cfg_version)
    ∷ []

-- "Sapphire" and its end
abbrev pub mode_text : List ℕ
mode_text = 83 ∷ 97 ∷ 112 ∷ 112 ∷ 104 ∷ 105 ∷ 114 ∷ 101 ∷ 0 ∷ []

module _ {E : Type 0} (d : Eeprom E) where
  -- the loop of `cfg_v_default_all` that erases the EEPROM: `k` bytes from an address on
  unfoldable pub erase_bytes : ℕ → ℕ → E → E
  erase_bytes zero i e = e
  erase_bytes (suc k) i e = erase_bytes k (i + 1) (write_byte d i 0xff e)

  module _ (kv_type : ℕ → ℤ) (kv_len : ℕ → ℤ) (fuel : ℕ) where
    -- the calls of `cfg_v_set` of `cfg_v_default_all`
    unfoldable pub set_all : List (ℕ × List ℕ) → Config E → Run (Config E)
    set_all [] s = ok s
    set_all ((parameter, value) ∷ rest) s = do
      t ← set_param d kv_type kv_len fuel parameter value s
      set_all rest t

    -- `cfg_v_default_all`
    unfoldable pub default_all : Config E → Run (Config E)
    default_all s = do
      t ← set_all defaults (record s { eeprom = erase_bytes ee_array_size 0 s.eeprom })
      ok (set_security_key d 1 zeroes (set_security_key d 0 zeroes t))

    -- the part of `cfg_v_init` that applies the manual IP configuration
    unfoldable pub apply_manual_ip : Config E → Run (Config E)
    apply_manual_ip s = do
      (ip, t) ← get_into d kv_type kv_len param_manual_ip (repeat 4 0) s
      (subnet, u) ← get_into d kv_type kv_len param_manual_subnet (repeat 4 0) t
      (dns, v) ← get_into d kv_type kv_len param_manual_dns_server (repeat 4 0) u
      (gateway, w) ← get_into d kv_type kv_len param_manual_gateway (repeat 4 0) v
      ok (
          if is_usable (addr_of ip) && is_usable (addr_of subnet)
          then record w {
            ip_config = record {
              ip = addr_of ip;
              subnet = addr_of subnet;
              dns_server = addr_of dns;
              internet_gateway = addr_of gateway;
            };
          }
          else w)

    -- the part of `cfg_v_init` that counts the loads of the firmware
    unfoldable pub count_load : List ℕ → Config E → Run (Config E)
    count_load stack s = do
      (count, t) ← get_into d kv_type kv_len param_firmware_load_count stack s
      set_param d kv_type kv_len fuel param_firmware_load_count
          (u16 (add16 (field 0 count + field 1 count * 2 ^ 8) 1)) t

    -- the part of `cfg_v_init` that sets the device number
    unfoldable pub set_device_id : List ℕ → Config E → Run (Config E)
    set_device_id stack s = do
      (device, t) ← get_into d kv_type kv_len param_device_id stack s
      elim (same_bytes device (repeat 8 0)) [
        | false ↦ ok t
        | true ↦ do
          (address, u) ← get_into d kv_type kv_len param_mac_address device t
          set_param d kv_type kv_len fuel param_device_id address u
      ]

    -- `cfg_v_init`, whose buffers hold `stack` before they are filled; `new_firmware` is whether the
    -- loader reports a new one. The virtual files that it creates are those of src/fs.c.
    unfoldable pub init : Bool → List ℕ → Config E → Run (Config E)
    init new_firmware stack s = do
      cleaned ← clean_blocks d kv_type kv_len (record s { cfg_index = λ k. no_entry })
      (status, bytes, t) ← get_param d kv_type kv_len param_version cleaned
      let version = bytes ++ drop (length bytes) stack
      let current = field 0 version + field 1 version * 2 ^ 8 == cfg_version
      u ← if is_neg status || not current then default_all t else ok t
      (manual, v) ← get_boolean d kv_type kv_len param_enable_manual_ip stack u
      w ← if manual then apply_manual_ip v else ok v
      x ← if new_firmware then count_load stack w else ok w
      let mode = read_bytes d 0 8 x.eeprom ++ (0 ∷ [])
      let marked =
          if same_bytes mode mode_text then x.eeprom else write_bytes d 0 mode_text x.eeprom
      set_device_id stack (record x { eeprom = marked })
