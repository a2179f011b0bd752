-- ===== src/Threading.antt =====
-- src/threading.c, the scheduler. The list of threads is the list of src/list.c by its nodes, in order.
-- A thread's body is a parameter: it goes on at the line where it stopped, calls functions of the scheduler,
-- and stops with a status. The heap, the clock and the sleep of the processor are parameters too.
pub mod Signals
pub mod Lists
pub mod Kept
pub mod Visits
pub mod Pass
mod Tests
use Prim.Native.Nat.{bit_and, bit_or}
use sapphire_os.Prelude.{
  ltb, ◌==◌, if◌then◌else◌, length, minus_one, ℤ, add32, ◌>>=◌, ◌>>◌, assert, within, Run, pos, ok,
  assert_failed, out_of_fuel, ℕ, zero, suc, ◌+◌, ◌-◌, ◌%◌, ◌^◌, Bool, true, false, not, ◌&&◌, ◌||◌,
  Option, none, some, List, [], ◌∷◌, ◌++◌,
}

-- what a body returns, of src/pt.h; `other` is any other value
pub data Status : Type 0 where
  waiting : Status
  yielded : Status
  exited : Status
  ended : Status
  sleeping : Status
  other : Status

-- `thread_state_t`, its flags one by one, under the handle of its node
pub record Thread : Type 0 where
  pub handle : ℕ
  pub function : ℕ
  pub line : ℕ
  pub waiting : Bool
  pub yielded : Bool
  pub sleeping : Bool
  pub signal : Bool
  pub run_time : ℕ
  pub runs : ℕ

-- the calls that a body makes
pub data Call : Type 0 where
  active : Call
  signal : ℕ → Call
  clear_signal : ℕ → Call
  set_signal_flag : Call
  clear_signal_flag : Call
  create : ℕ → Call
  restart : ℕ → Call

-- the variables of the scheduler; `ran` is not in the code: the handles of the bodies that were called
pub record Scheduler : Type 0 where
  pub threads : List Thread
  pub current : ℕ
  pub max_threads : ℕ
  pub signal : Bool
  pub sleep : Bool
  pub active : Bool
  pub signals : ℕ
  pub task_us : ℕ
  pub sleep_us : ℕ
  pub loops : ℕ
  pub ran : List ℕ

pub record Outcome (W : Type 0) : Type 0 where
  pub status : Status
  pub line : ℕ
  pub calls : List Call
  pub elapsed_us : ℕ
  pub world : W

pub record Machine (W : Type 0) : Type 0 where
  pub body : ℕ → ℕ → W → Outcome W
  pub create_node : W → Option ℕ × W
  pub release_node : ℕ → W → W
  pub sleep_idle : W → ℕ × W

abbrev pub max_signals : ℕ
max_signals = 16

-- `thread_v_signal`
unfoldable pub thread_signal : ℕ → Scheduler → Run Scheduler
thread_signal signum s = do
  assert (ltb signum max_signals)
  ok (record s { signals = bit_or s.signals (2 ^ signum); signal = true; sleep = false })

-- `thread_v_clear_signal`
unfoldable pub thread_clear_signal : ℕ → Scheduler → Run Scheduler
thread_clear_signal signum s = do
  assert (ltb signum max_signals)
  ok (record s { signals = bit_and s.signals (2 ^ 16 - 1 - 2 ^ signum) })

-- `thread_b_signalled`
unfoldable pub thread_signalled : ℕ → Scheduler → Run Bool
thread_signalled signum s = do
  assert (ltb signum max_signals)
  ok (not (bit_and s.signals (2 ^ signum) == 0))

-- `thread_v_active`
unfoldable pub set_active : Scheduler → Scheduler
set_active s = record s { active = true; sleep = false }

-- the state of a thread, and a change of it
abbrev pub thread_at : ℕ → List Thread → Option Thread
thread_at h [] = none
thread_at h (t ∷ ts) = if t.handle == h then some t else thread_at h ts

abbrev pub change : ℕ → (Thread → Thread) → List Thread → List Thread
change h f [] = []
change h f (t ∷ ts) = if t.handle == h then f t ∷ ts else t ∷ change h f ts

abbrev pub first_of : List Thread → Option ℕ
first_of [] = none
first_of (t ∷ ts) = some t.handle

-- the node behind a node, and the list without it
abbrev pub next_thread : ℕ → List Thread → Option ℕ
next_thread h [] = none
next_thread h (t ∷ ts) = if t.handle == h then first_of ts else next_thread h ts

abbrev pub without : ℕ → List Thread → List Thread
without h [] = []
without h (t ∷ ts) = if t.handle == h then ts else t ∷ without h ts

-- `list_u8_count`
abbrev pub count_threads : List Thread → ℕ
count_threads ts = length ts % 2 ^ 8

-- `thread_v_restart`
unfoldable pub thread_restart : ℕ → Scheduler → Scheduler
thread_restart h s = record s {
  threads = change h (λ t. record t { yielded = true; line = 0 }) s.threads;
}

abbrev pub new_thread : ℕ → ℕ → Thread
new_thread handle function = record {
  handle = handle;
  function = function;
  line = 0;
  waiting = false;
  yielded = true;
  sleeping = false;
  signal = false;
  run_time = 0;
  runs = 0;
}

-- the times of a thread that was active, both of which stop at their largest value
unfoldable pub count_run : ℕ → Thread → Thread
count_run elapsed t =
    let run_time = add32 t.run_time elapsed in
    record t {
      run_time = if ltb run_time t.run_time then 2 ^ 32 - 1 else run_time;
      runs = if ltb t.runs (2 ^ 32 - 1) then t.runs + 1 else t.runs;
    }

-- the thread goes on at `line` the next time; the times are counted if it was active
unfoldable pub account : ℕ → ℕ → ℕ → Scheduler → Scheduler
account h line elapsed s =
    let resumed = change h (λ t. record t { line = line }) s.threads in
    if s.active
    then record s {
      threads = change h (count_run elapsed) resumed;
      task_us = add32 s.task_us elapsed;
    }
    else record s { threads = resumed }

-- the test of the loop over the waiting threads
abbrev pub is_ready : Thread → Bool
is_ready t = (t.waiting || t.yielded) && not t.signal

module _ {W : Type 0} (machine : Machine W) where
  open machine use {body, create_node, release_node, sleep_idle}

  -- `thread_t_create`; without room for the node, -1
  unfoldable pub thread_create : ℕ → Scheduler → W → ℤ × (Scheduler × W)
  thread_create function s w =
      let (node, w') = create_node w in
      let count = count_threads s.threads in
      elim node [
        | none ↦ (minus_one, (s, w'))
        | some h ↦ (
          pos h,
          (
            record s {
              max_threads = if ltb s.max_threads count then count else s.max_threads;
              threads = s.threads ++ new_thread h function ∷ [];
            },
            w',
          ),
        )
      ]

  -- `thread_v_kill`
  unfoldable pub thread_kill : ℕ → Scheduler → W → Scheduler × W
  thread_kill h s w = (record s { threads = without h s.threads }, release_node h w)

  -- one call of the running thread
  unfoldable pub perform : Call → Scheduler → W → Run (Scheduler × W)
  perform active s w = ok (set_active s, w)
  perform (signal n) s w = thread_signal n s >>= λ t. ok (t, w)
  perform (clear_signal n) s w = thread_clear_signal n s >>= λ t. ok (t, w)
  perform set_signal_flag s w =
      ok (record s { threads = change s.current (λ t. record t { signal = true }) s.threads }, w)
  perform clear_signal_flag s w =
      ok (record s { threads = change s.current (λ t. record t { signal = false }) s.threads }, w)
  perform (create function) s w = ok ((thread_create function s w).1)
  perform (restart h) s w = ok (thread_restart h s, w)

  unfoldable pub perform_all : List Call → Scheduler → W → Run (Scheduler × W)
  perform_all [] s w = ok (s, w)
  perform_all (c ∷ calls) s w = perform c s w >>= λ (s', w'). perform_all calls s' w'

  -- the switch on the returned status
  unfoldable pub stop : Status → ℕ → Scheduler → W → Run (Scheduler × W)
  stop waiting h s w =
      ok (record s { threads = change h (λ t. record t { waiting = true }) s.threads }, w)
  stop yielded h s w =
      ok (record s { threads = change h (λ t. record t { yielded = true }) s.threads }, w)
  stop sleeping h s w =
      ok (record s { threads = change h (λ t. record t { sleeping = true }) s.threads }, w)
  stop exited h s w = ok (thread_kill h s w)
  stop ended h s w = ok (thread_kill h s w)
  stop other h s w = assert_failed

  -- `run_thread`; the result names the node that is next after it in the list. The removal of a node leaves
  -- its own links as they are.
  unfoldable pub run_thread : ℕ → Thread → Scheduler → W → Run (Option ℕ × (Scheduler × W))
  run_thread h t s w = do
    let out = body t.function t.line w
    (called, w1) ←
        perform_all out.calls (record s { current = h; active = false; ran = s.ran ++ h ∷ [] })
          out.world
    let counted = account h out.line out.elapsed_us called
    let next = next_thread h counted.threads
    (last, w2) ← stop out.status h counted w1
    ok (next, (last, w2))

  -- a thread's flags are cleared and it is run, if it is to be
  unfoldable pub visit : Bool → ℕ → Thread → Scheduler → W → Run (Option ℕ × (Scheduler × W))
  visit true h t s w =
      run_thread h (record t { waiting = false; yielded = false })
        (record s {
          threads = change h (λ t. record t { waiting = false; yielded = false }) s.threads;
        })
        w
  visit false h t s w = ok (next_thread h s.threads, (s, w))

  -- the loop of `process_signalled_threads`
  unfoldable pub signalled_loop : ℕ → Option ℕ → Scheduler → W → Run (Scheduler × W)
  signalled_loop zero ln s w = out_of_fuel
  signalled_loop (suc k) none s w = ok (s, w)
  signalled_loop (suc k) (some h) s w = within (thread_at h s.threads) >>= λ t.
      visit t.signal h t s w >>= λ (next, (s', w')). signalled_loop k next s' w'

  -- `process_signalled_threads`
  unfoldable pub process_signalled_threads : ℕ → Scheduler → W → Run (Scheduler × W)
  process_signalled_threads k s w =
      signalled_loop k (first_of s.threads) (record s { signal = false }) w

  -- the loop over the waiting threads; `k` bounds its rounds and those of each loop inside
  unfoldable pub waiting_loop : ℕ → ℕ → Option ℕ → Scheduler → W → Run (Scheduler × W)
  waiting_loop k zero ln s w = out_of_fuel
  waiting_loop k (suc j) none s w = ok (s, w)
  waiting_loop k (suc j) (some h) s w =
      (if s.signal then process_signalled_threads k s w else ok (s, w)) >>= λ (s1, w1).
      within (thread_at h s1.threads) >>= λ t.
      visit (is_ready t) h t s1 w1 >>= λ (next, (s2, w2)). waiting_loop k j next s2 w2

  -- the sleep of the processor, if no thread was active
  unfoldable pub doze : Bool → Scheduler → W → Scheduler × W
  doze true s w = let (us, w') = sleep_idle w in (record s { sleep_us = add32 s.sleep_us us }, w')
  doze false s w = (s, w)

  -- one round of the loop of `thread_start`
  unfoldable pub pass : ℕ → Scheduler → W → Run (Scheduler × W)
  pass k s w = do
    (walked, w1) ← waiting_loop k k (first_of s.threads) (record s { sleep = true }) w
    let (slept, w2) = doze walked.sleep walked w1
    ok (
      record slept { loops = if ltb slept.loops 0xffff then slept.loops + 1 else slept.loops },
      w2,
    )
