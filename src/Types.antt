-- ===== src/Types.antt =====
-- src/types.c: the types of parameters and the sizes of their values.
use sapphire_os.Prelude.{◌==◌, if◌then◌else◌, ℤ, pos, negsuc, ℕ, ◌||◌}

-- `SAPPHIRE_TYPE_INVALID`
abbrev pub invalid_size : ℕ
invalid_size = 65535

-- `type_u16_size`
unfoldable pub type_size : ℤ → ℕ
type_size (negsuc t) = invalid_size
type_size (pos t) =
    if t == 0
    then 0
    else if (t == 1) || (t == 2) || (t == 3)
    then 1
    else if (t == 4) || (t == 5)
    then 2
    else if (t == 6) || (t == 7) || (t == 10) || (t == 44)
    then 4
    else if (t == 8) || (t == 9) || (t == 42)
    then 8
    else if t == 40
    then 128
    else if t == 45
    then 512
    else if t == 41
    then 6
    else if t == 43
    then 16
    else invalid_size
