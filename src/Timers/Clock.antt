-- ===== src/Timers/Clock.antt =====
-- The interrupt of src/timers.c moves ticks from the register to the system time, while the counter runs.
use sapphire_os.Prelude.{
  ltb, ltb→lt, Bool-cases, add16, sub16, add32, mul32, Returns-mono, Returns, returns, ℕ, zero, suc,
  ◌+◌, ◌*◌, ◌%◌, ◌^◌, ◌≤◌, ◌<◌, ◌≡◌, ◌∙◌, inl, inr, arith,
}
use sapphire_os.Timers.{Timer, Round, timer_top, get_ticks, overflow_loop, overflow}

-- rounds of at most 100 ticks
abbrev pub AreShort : (ℕ → Round) → Type 0
AreShort rounds = (k : ℕ) → (rounds k).before_read + (rounds k).behind ≤ 100

-- the ticks of `j` rounds, the first of which has `k` rounds behind it, less those between a read of the
-- register and the write that follows
abbrev pub kept_ticks : (ℕ → Round) → ℕ → ℕ → ℕ
kept_ticks rounds k zero = 0
kept_ticks rounds zero (suc j) = 0
kept_ticks rounds (suc k) (suc j) =
    (rounds k).before_read + (rounds k).behind + kept_ticks rounds k j

-- after `j` rounds: the count of ticks went on by the ticks that are kept, and the register is done
pub record Settled (rounds : ℕ → Round) (k : ℕ) (t t' : Timer) : Type 0 where
  pub count : ℕ
  pub few : count < k
  pub ticks : get_ticks t' ≡ add32 (get_ticks t) (kept_ticks rounds k count)
  pub register : t'.tcnt ≤ timer_top

-- the ticks of one round
round-ticks :
    (time tcnt a b c : ℕ)
    → timer_top < tcnt
    → tcnt + 400 ≤ 2 ^ 16
    → a + b ≤ 100
    → (add32 (mul32 (add32 time 10) 2000) (add16 (sub16 (add16 tcnt a) timer_top) b) + c) % 2 ^ 32
      ≡ (add32 (mul32 time 2000) tcnt + (a + b + c)) % 2 ^ 32
round-ticks time tcnt a b c big small short = omega arith

overflow_loop-Settled :
    (rounds : ℕ → Round) (k : ℕ) (t : Timer)
    → AreShort rounds
    → t.tcnt + 400 ≤ 2 ^ 16
    → t.tcnt < k * 19800
    → Returns (Settled rounds k t) (overflow_loop rounds k t)
unfolding overflow_loop get_ticks
overflow_loop-Settled rounds zero t short l f = absurd (omega arith)
overflow_loop-Settled rounds (suc k) t short l f = elim (Bool-cases (ltb timer_top t.tcnt)) [
  | inr e ↦
      rw (overflow_loop, e)
        (returns
          (record { count = 0; few = omega arith; ticks = omega arith; register = ground arith }))
  | inl e ↦
      let big : timer_top < t.tcnt = ltb→lt timer_top t.tcnt e in
      let r = rounds k in
      let quick : r.before_read + r.behind ≤ 100 = short k in
      let next : Timer = record {
        system_time = add32 t.system_time 10;
        tcnt = add16 (sub16 (add16 t.tcnt r.before_read) timer_top) r.behind;
      } in
      rw (overflow_loop, e)
        (Returns-mono
          (overflow_loop-Settled rounds k next short (omega (arith, quick)) (omega (arith, quick)))
          λ t' s. record {
            count = suc s.count;
            few = omega (arith, s.few);
            ticks =
                s.ticks
                ∙ round-ticks t.system_time t.tcnt r.before_read r.behind
                    (kept_ticks rounds k s.count) big l quick;
            register = s.register;
          })
]

-- For a register below 65137 and rounds of at most 100 ticks, the interrupt ends after three rounds at
-- most with at most TIMER_TOP in the register. The count of ticks goes on by exactly the ticks of its rounds,
-- less those between a read of the register and the write that follows, which are lost.
pub overflow-Settled :
    (rounds : ℕ → Round) (t : Timer)
    → AreShort rounds
    → t.tcnt + 400 ≤ 2 ^ 16
    → Returns (Settled rounds 4 t) (overflow rounds t)
unfolding overflow
overflow-Settled rounds t short l = overflow_loop-Settled rounds 4 t short l (omega arith)
