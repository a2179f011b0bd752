-- ===== src/Timers/Tests.antt =====
-- src/timers.c with a register that the interrupt finds above its limit.
use sapphire_os.Prelude.{Returns, ℕ, arith}
use sapphire_os.Timers.{Timer, Round, overflow}
use sapphire_os.Timers.Clock.{Settled, overflow-Settled}

abbrev late : Timer
late = record { system_time = 4294967290; tcnt = 20003 }

-- rounds that lose three ticks each
abbrev quick : ℕ → Round
quick k = record { before_read = 2; before_write = 3; behind = 4 }

overflow-Settled_example : Returns (Settled quick 4 late) (overflow quick late)
overflow-Settled_example = overflow-Settled quick late (λ k. omega arith) (omega arith)
