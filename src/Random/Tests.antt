-- ===== src/Random/Tests.antt =====
-- The shift register from 1 on.
use sapphire_os.Prelude.{◌/◌, ◌%◌, ◌^◌, ◌<◌, ◌≡◌, arith}
use sapphire_os.Random.{Random, get_int}
use sapphire_os.Random.Words.{IsRunning, get_int-even}

abbrev started : Random (Unit {0})
started = record { lfsr = 1; radio = tt }

get_int-even_example :
    let (value, t) = get_int started in
    (value < 2 ^ 16) × (value % 2 ≡ 0) × (value / 2 ^ 8 % 2 ≡ 0) × IsRunning t.lfsr
get_int-even_example = get_int-even started (omega arith, omega arith)
