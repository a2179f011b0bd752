-- ===== src/Config.antt =====
-- src/config.c: the parameters that the device keeps in its EEPROM, in blocks of twelve bytes, each
-- a copy of eight bytes of a parameter, and the keys and the error log behind them; src/eeprom.c.
-- The cells of the EEPROM are a parameter: a device whose programming may fail. A structure in the
-- EEPROM is the list of its bytes. What src/keyvalue.c answers about the types of the parameters is
-- a parameter of the functions that ask for it.
pub mod Store
pub mod Params
pub mod Keys
pub mod Start
pub mod Cells
pub mod Blocks
pub mod Sound
pub mod Replaced
pub mod Parts
pub mod RoundTrip
mod Tests
use sapphire_os.Prelude.{
  ltb, ◌==◌, if◌then◌else◌, length, repeat, ℤ, add16, ◌>>=◌, ◌>>◌, assert, Run, pos, negsuc, ok, ℕ,
  zero, suc, ◌+◌, ◌-◌, ◌*◌, ◌/◌, ◌%◌, ◌^◌, Bool, not, List, [], ◌∷◌, ◌++◌,
}
use sapphire_os.System.{Kernel}
use sapphire_os.Ip.{Addr, is_zeroes}

-- the registers EEAR, EEDR and EECR, as a cell that is read and one that is programmed
pub record Eeprom (E : Type 0) : Type 0 where
  pub read : ℕ → E → ℕ
  pub program : ℕ → ℕ → E → E

-- `cfg_index_t`
pub record CfgIndex : Type 0 where
  pub id : ℕ
  pub block_number : ℕ

-- `cfg_ip_config_t`
pub record IpConfig : Type 0 where
  pub ip : Addr
  pub subnet : Addr
  pub dns_server : Addr
  pub internet_gateway : Addr

pub record Config (E : Type 0) : Type 0 where
  pub eeprom : E
  pub cfg_index : ℕ → CfgIndex
  pub cfg_index_insert : ℕ
  pub ip_config : IpConfig
  pub kernel : Kernel

-- `EE_ARRAY_SIZE`
abbrev pub ee_array_size : ℕ
ee_array_size = 4096

-- `CFG_FILE_MAIN_START`
abbrev pub main_start : ℕ
main_start = 16

-- `CFG_FILE_SECURE_START`
abbrev pub secure_start : ℕ
secure_start = 16 + 3072

-- `CFG_FILE_ERROR_LOG_START`
abbrev pub error_log_start : ℕ
error_log_start = 4096 - 512

abbrev pub error_log_size : ℕ
error_log_size = 512

-- `CFG_PARAM_DATA_LEN`
abbrev pub data_len : ℕ
data_len = 8

-- `sizeof(cfg_block_t)`
abbrev pub block_size : ℕ
block_size = 12

-- `CFG_TOTAL_BLOCKS`
abbrev pub total_blocks : ℕ
total_blocks = 3072 / 12 - 1

-- `CFG_INDEX_SIZE`
abbrev pub index_size : ℕ
index_size = 16

-- `CFG_PARAM_EMPTY_BLOCK`
abbrev pub empty_block : ℕ
empty_block = 255

abbrev pub key_size : ℕ
key_size = 16

abbrev pub max_keys : ℕ
max_keys = 2

abbrev pub warn_config_full : ℕ
warn_config_full = 0x0010

abbrev pub warn_config_write_fail : ℕ
warn_config_write_fail = 0x0020

-- `CFG_PARAM_IP_ADDRESS` and the other parameters that are in memory only
abbrev pub param_ip_address : ℕ
param_ip_address = 2

abbrev pub param_ip_subnet_mask : ℕ
param_ip_subnet_mask = 3

abbrev pub param_dns_server : ℕ
param_dns_server = 4

abbrev pub param_internet_gateway : ℕ
param_internet_gateway = 34

-- `KV_GROUP_SYS_CFG`, `KV_OP_SET` and `KV_OP_GET`
abbrev pub group_sys_cfg : ℕ
group_sys_cfg = 1

abbrev pub kv_op_set : ℕ
kv_op_set = 1

abbrev pub kv_op_get : ℕ
kv_op_get = 2

abbrev pub param_short_address : ℕ
param_short_address = 6

abbrev pub param_pan_id : ℕ
param_pan_id = 7

abbrev pub param_manual_ip : ℕ
param_manual_ip = 48

abbrev pub param_manual_subnet : ℕ
param_manual_subnet = 49

abbrev pub param_enable_manual_ip : ℕ
param_enable_manual_ip = 53

-- `WCOM_MAC_PAN_ID_NOT_PRESENT`
abbrev pub pan_id_not_present : ℕ
pan_id_not_present = 0

abbrev pub all_ones : Addr
all_ones = record { ip3 = 255; ip2 = 255; ip1 = 255; ip0 = 255 }

-- a field of a structure, by its place
abbrev pub field : ℕ → List ℕ → ℕ
field i [] = 0
field zero (b ∷ bs) = b
field (suc i) (b ∷ bs) = field i bs

-- the address that the bytes at a pointer are
abbrev pub addr_of : List ℕ → Addr
addr_of bytes = record {
  ip3 = field 0 bytes;
  ip2 = field 1 bytes;
  ip1 = field 2 bytes;
  ip0 = field 3 bytes;
}

-- the bytes of an `ip_addr_t`
abbrev pub addr_bytes : Addr → List ℕ
addr_bytes a = a.ip3 ∷ a.ip2 ∷ a.ip1 ∷ a.ip0 ∷ []

-- an entry of the index after `memset` to 0xff
abbrev pub no_entry : CfgIndex
no_entry = record { id = 0xff; block_number = 0xff }

-- a signed byte, as it is stored
abbrev pub byte_of : ℤ → ℕ
byte_of (pos n) = n % 2 ^ 8
byte_of (negsuc n) = 255 - n % 2 ^ 8

-- `cfg_block_t`
unfoldable pub block_bytes : ℕ → ℤ → ℕ → List ℕ → List ℕ
block_bytes id type number data_bytes =
    id ∷ byte_of type ∷ number ∷ 0xff ∷ (data_bytes ++ repeat (data_len - length data_bytes) 0)

-- `block_address`
unfoldable pub block_address : ℕ → Run ℕ
block_address block_number = do
  assert (ltb block_number total_blocks)
  ok (block_number * block_size + main_start)

module _ {E : Type 0} (d : Eeprom E) where
  open d use {read, program}

  -- `ee_v_write_byte_blocking`
  unfoldable pub write_byte : ℕ → ℕ → E → E
  write_byte address data_byte e =
      if data_byte == read address e then e else program address data_byte e

  -- `ee_v_write_block`
  unfoldable pub write_bytes : ℕ → List ℕ → E → E
  write_bytes address [] e = e
  write_bytes address (b ∷ bs) e = write_bytes (add16 address 1) bs (write_byte address b e)

  -- `ee_v_read_block`
  unfoldable pub read_bytes : ℕ → ℕ → E → List ℕ
  read_bytes address zero e = []
  read_bytes address (suc n) e = read address e ∷ read_bytes (add16 address 1) n e

-- `cfg_v_set_ip_config`
unfoldable pub set_ip_config : {E : Type 0} → IpConfig → Config E → Config E
set_ip_config config s = record s { ip_config = config }

-- `cfg_b_ip_configured`
unfoldable pub ip_configured : {E : Type 0} → Config E → Bool
ip_configured s = not (is_zeroes s.ip_config.ip)
