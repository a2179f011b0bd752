-- ===== src/Timers.antt =====
-- src/timers.c: the system time, which an interrupt of timer 1 drives, and spans of time.
-- `tcnt` is the register TCNT1, which counts on its own: what it counts during the interrupt is an
-- argument of it. A read in an ATOMIC section is a read of the state.
pub mod Spans
pub mod Clock
mod Tests
use sapphire_os.Prelude.{
  ltb, leb, ◌==◌, if◌then◌else◌, ltb→lt, lt→ltb, le→not_ltb, eq→==, ==→eq, Bool-cases, Option-cases,
  update, bit_xor-halves, bit_and-halves, power, bit_xor-lt_power, bit_xor-lt, bit_xor-twice_power,
  bit_xor-twice, bit_and-one, bit_xor-zero, bit_xor-high, bit_xor-low, bit_xor_comm, bit_xor-undone,
  bit_or-halves, bit, bit-lt, bit-bit_and, bit-bit_or, bit_and-power, bit-power, bit-mask, length,
  get_elem?, length-append, List-cases, same_bytes, same_bytes_self, split_at, split_at-append,
  split_at-total, split_at-whole, take, drop, repeat, length-repeat, take-append, is_neg, inc, dec,
  minus_one, ℤ, add8, add16, sub16, add32, sub32, mul32, ◌>>=◌, ◌>>◌, assert, within, >>=-eq-ok,
  Returns-bind, Returns-mono, Returns-ok, Returns-value, IfReturns-bind, IfReturns-any,
  IfReturns-value, Run, Returns, IfReturns, if_ok, if_failed, if_outside, if_fuel, pos, negsuc, ok,
  assert_failed, out_of_bounds, out_of_fuel, returns, ℕ, zero, suc, ◌+◌, ◌-◌, ◌*◌, ◌/◌, ◌%◌, ◌^◌,
  ◌≤◌, ◌<◌, ◌≡◌, refl, sym, ap, ap₂, ◌∙◌, ◌≢◌, ◌↔◌, ◌⊎◌, inl, inr, Bool, true, false, not, ◌&&◌,
  ◌||◌, Option, none, some, List, [], ◌∷◌, ◌++◌, arith,
}

pub record Timer : Type 0 where
  pub system_time : ℕ
  pub tcnt : ℕ

abbrev pub ticks_per_ms : ℕ
ticks_per_ms = 2000

-- `TIMER_TOP`
abbrev pub timer_top : ℕ
timer_top = 20000

-- `UINT32_MAX`
abbrev pub max_time : ℕ
max_time = 2 ^ 32 - 1

-- `tmr_v_init`, less the set-up of the registers
unfoldable pub init : Timer → Timer
init t = record t { system_time = 0 }

-- `tmr_u32_get_system_time_ms`
unfoldable pub get_system_time_ms : Timer → ℕ
get_system_time_ms t = add32 t.system_time (t.tcnt / ticks_per_ms)

-- `tmr_u32_get_system_time_us`
unfoldable pub get_system_time_us : Timer → ℕ
get_system_time_us t = add32 (mul32 t.system_time 1000) (t.tcnt / (ticks_per_ms / 1000))

-- `tmr_u32_get_system_time`, and the same for interrupts
unfoldable pub get_system_time : Timer → ℕ
get_system_time t = t.system_time

-- the span between two readings, as `tmr_u32_elapsed_time` and `tmr_u32_elapsed_ticks` compute it
unfoldable pub span : ℕ → ℕ → ℕ
span start end = if leb start end then end - start else max_time - (start - end)

-- `tmr_u32_elapsed_time`
unfoldable pub elapsed_time : ℕ → Timer → ℕ
elapsed_time start t = span start (get_system_time_ms t)

-- `( int32_t )distance`, compared with 0
unfoldable pub sign32 : ℕ → ℤ
sign32 distance =
    if leb (2 ^ 31) distance then minus_one else if ltb 0 distance then pos 1 else pos 0

-- `tmr_i8_compare_times`
unfoldable pub compare_times : ℕ → ℕ → ℤ
compare_times time1 time2 = sign32 (sub32 time1 time2)

-- `tmr_i8_compare_time`
unfoldable pub compare_time : ℕ → Timer → ℤ
compare_time time t = sign32 (sub32 time t.system_time)

-- `tmr_u32_get_ticks`
unfoldable pub get_ticks : Timer → ℕ
get_ticks t = add32 (mul32 t.system_time ticks_per_ms) t.tcnt

-- `tmr_u32_elapsed_ticks`
unfoldable pub elapsed_ticks : ℕ → Timer → ℕ
elapsed_ticks start t = span start (get_ticks t)

-- `tmr_u32_ticks_to_us`
unfoldable pub ticks_to_us : ℕ → ℕ
ticks_to_us ticks = ticks / 2

-- The ticks of the counter TCNT1 in a round of the interrupt: from the test of the loop to the read of
-- the register, from the read to the write, and from the write to the next test. The write puts the
-- old value, less TIMER_TOP, over what the counter reached meanwhile.
pub record Round : Type 0 where
  pub before_read : ℕ
  pub before_write : ℕ
  pub behind : ℕ

-- the loop of the interrupt TIMER1_COMPA, with what passes while `k` rounds are left
unfoldable pub overflow_loop : (ℕ → Round) → ℕ → Timer → Run Timer
overflow_loop rounds zero t = out_of_fuel
overflow_loop rounds (suc k) t = elim (ltb timer_top t.tcnt) [
  | true ↦
      let r = rounds k in
      let written = sub16 (add16 t.tcnt r.before_read) timer_top in
      overflow_loop rounds k
        (record t { system_time = add32 t.system_time 10; tcnt = add16 written r.behind })
  | false ↦ ok t
]

-- the interrupt; a 16-bit register holds less than four times `timer_top`
unfoldable pub overflow : (ℕ → Round) → Timer → Run Timer
overflow rounds t = overflow_loop rounds 4 t
