-- ===== src/Threading/Tests.antt =====
-- Two threads: the first waits and sends a signal when it runs, the second waits for that signal.
use sapphire_os.Prelude.{Returns, ℕ, ◌≡◌, refl, true, false, none, [], ◌∷◌, arith}
use sapphire_os.Threading.{Thread, Scheduler, Machine, waiting, signal, active, pass}
use sapphire_os.Threading.Lists.{handles, has}
use sapphire_os.Threading.Kept.{IsSteady}
use sapphire_os.Threading.Pass.{pass-ran}

abbrev simple : Machine ℕ
simple = record {
  body = λ function line w. record {
    status = waiting;
    line = line;
    calls = active ∷ signal 3 ∷ [];
    elapsed_us = 10;
    world = w;
  };
  create_node = λ w. (none, w);
  release_node = λ h w. w;
  sleep_idle = λ w. (100, w);
}

simple-IsSteady : IsSteady simple
simple-IsSteady = record {
  statuses = λ function line w. tt;
  calls = λ function line w. (omega arith, tt);
}

abbrev waiter : Thread
waiter = record {
  handle = 4;
  function = 0;
  line = 0;
  waiting = true;
  yielded = false;
  sleeping = false;
  signal = false;
  run_time = 0;
  runs = 0;
}

abbrev signaller : Thread
signaller = record waiter { handle = 9; signal = true }

abbrev two_threads : Scheduler
two_threads = record {
  threads = waiter ∷ signaller ∷ [];
  current = 4;
  max_threads = 2;
  signal = false;
  sleep = false;
  active = false;
  signals = 0;
  task_us = 0;
  sleep_us = 0;
  loops = 0;
  ran = [];
}

pass-ran_example :
    Returns
      (λ (s', w'). (handles s'.threads ≡ handles two_threads.threads) × (has 4 s'.ran ≡ true))
      (pass simple 5 two_threads 0)
pass-ran_example =
    pass-ran simple 5 4 waiter two_threads 0 simple-IsSteady (refl, (refl, tt)) (omega arith) refl
      refl refl
