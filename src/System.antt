-- ===== src/System.antt =====
-- The state that src/statistics.c and src/system.c keep for every other module: the event counters,
-- the last error and the warning flags. The log lines that `sys_v_set_warnings` prints are output
-- and are left out.
pub mod Stat
use Prim.Native.Nat.{bit_or}
use sapphire_os.Prelude.{ℕ, ◌+◌, ◌-◌, ◌^◌, if◌then◌else◌, ltb, update, Run, ok, assert, ◌>>=◌, ◌>>◌}

pub record Kernel : Type 0 where
  pub stats : ℕ → ℕ
  pub error : ℕ
  pub warnings : ℕ

-- `stats_v_increment`: a counter stops at its largest value.
unfoldable pub stats_increment : ℕ → Kernel → Run Kernel
stats_increment param k = do
  assert (ltb param Stat.count)
  ok (
      if ltb (k.stats param) (2 ^ 32 - 1)
      then record k { stats = update k.stats param (k.stats param + 1) }
      else k)

-- `stats_v_set`
unfoldable pub stats_set : ℕ → ℕ → Kernel → Run Kernel
stats_set param value k = do
  assert (ltb param Stat.count)
  ok (record k { stats = update k.stats param value })

-- `stats_u32_read`
unfoldable pub stats_read : ℕ → Kernel → Run ℕ
stats_read param k = do assert (ltb param Stat.count); ok (k.stats param)

abbrev pub warn_mem_full : ℕ
warn_mem_full = 1

abbrev pub warn_flash_fs_hard_error : ℕ
warn_flash_fs_hard_error = 8

-- `sys_v_set_error`
unfoldable pub set_error : ℕ → Kernel → Kernel
set_error e k = record k { error = e }

-- `sys_v_set_warnings`
unfoldable pub set_warnings : ℕ → Kernel → Kernel
set_warnings flags k = record k { warnings = bit_or k.warnings flags }
