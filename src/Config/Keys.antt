-- ===== src/Config/Keys.antt =====
-- The security keys and the error log behind the parameters: src/config.c.
use sapphire_os.Prelude.{
  leb, ◌==◌, if◌then◌else◌, take, repeat, ℕ, zero, suc, ◌+◌, ◌*◌, ◌||◌, Option, none, some, List,
}
use sapphire_os.Config.{
  Eeprom, Config, secure_start, error_log_start, error_log_size, key_size, max_keys, write_bytes,
  read_bytes,
}

module _ {E : Type 0} (d : Eeprom E) where
  open d use {read}

  -- `cfg_v_set_security_key`
  unfoldable pub set_security_key : ℕ → List ℕ → Config E → Config E
  set_security_key key_id key s = if leb max_keys key_id then s else record s {
    eeprom = write_bytes d (secure_start + key_id * key_size) (take key_size key) s.eeprom;
  }

  -- `cfg_v_get_security_key`; `none` where nothing is stored
  unfoldable pub get_security_key : ℕ → Config E → Option (List ℕ)
  get_security_key key_id s =
      if leb max_keys key_id
      then none
      else some (read_bytes d (secure_start + key_id * key_size) key_size s.eeprom)

  -- `cfg_v_write_error_log`
  unfoldable pub write_error_log : List ℕ → Config E → Config E
  write_error_log log s = record s { eeprom = write_bytes d error_log_start log s.eeprom }

  -- `cfg_v_read_error_log`
  unfoldable pub read_error_log : Config E → List ℕ
  read_error_log s = read_bytes d error_log_start error_log_size s.eeprom

  -- `cfg_v_erase_error_log`
  unfoldable pub erase_error_log : Config E → Config E
  erase_error_log s = record s {
    eeprom = write_bytes d error_log_start (repeat error_log_size 0xff) s.eeprom;
  }

  -- the loop of `cfg_u16_error_log_size`: `k` bytes from an address on
  unfoldable pub log_bytes : ℕ → ℕ → E → ℕ
  log_bytes zero i e = 0
  log_bytes (suc k) i e =
      let rest = log_bytes k (i + 1) e in
      if (read i e == 0xff) || (read i e == 0) then 0 else rest + 1

  -- `cfg_u16_error_log_size`
  unfoldable pub error_log_length : Config E → ℕ
  error_log_length s = log_bytes error_log_size error_log_start s.eeprom
