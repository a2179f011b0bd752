-- ===== src/Threading/Kept.antt =====
-- A thread that waits to be run stays on the list until its body was called, whatever the bodies of
-- the other threads do.
use sapphire_os.Prelude.{
  ◌==◌, ==→eq, Bool-cases, ℕ, ◌<◌, ◌≡◌, refl, ◌∙◌, ◌⊎◌, inl, inr, true, some, List, [], ◌∷◌, arith,
}
use sapphire_os.Threading.{
  Status, Thread, Call, Scheduler, Machine, max_signals, thread_at, change, is_ready, waiting,
  yielded, sleeping, exited, ended, other, active, signal, clear_signal, set_signal_flag,
  clear_signal_flag, create, restart,
}
use sapphire_os.Threading.Lists.{handles, has, thread_at-change, thread_at-change_other}

-- a body that neither ends nor makes other threads, and signals only signals that exist
abbrev pub IsSteadyStatus : Status → Type 0
IsSteadyStatus waiting = Unit
IsSteadyStatus yielded = Unit
IsSteadyStatus sleeping = Unit
IsSteadyStatus exited = ⊥
IsSteadyStatus ended = ⊥
IsSteadyStatus other = ⊥

abbrev pub AreSteadyCalls : List Call → Type 0
AreSteadyCalls [] = Unit
AreSteadyCalls (signal n ∷ calls) = (n < max_signals) × AreSteadyCalls calls
AreSteadyCalls (clear_signal n ∷ calls) = (n < max_signals) × AreSteadyCalls calls
AreSteadyCalls (create f ∷ calls) = ⊥
AreSteadyCalls (active ∷ calls) = AreSteadyCalls calls
AreSteadyCalls (set_signal_flag ∷ calls) = AreSteadyCalls calls
AreSteadyCalls (clear_signal_flag ∷ calls) = AreSteadyCalls calls
AreSteadyCalls (restart h ∷ calls) = AreSteadyCalls calls

pub record IsSteady {W : Type 0} (machine : Machine W) : Type 0 where
  pub statuses : (function line : ℕ) (w : W) → IsSteadyStatus (machine.body function line w).status
  pub calls : (function line : ℕ) (w : W) → AreSteadyCalls (machine.body function line w).calls

-- a thread that is ready to be run, and `P` holds
abbrev pub IsPending : Type 0 → ℕ → List Thread → Type 0
IsPending P h ts = P × (t : Thread) × (thread_at h ts ≡ some t) × (is_ready t ≡ true)

-- The list has the handles `hs`, and the body of `h` was called or is ready to be. Where `P` is empty,
-- it was called.

pub record Alive (P : Type 0) (hs : List ℕ) (h : ℕ) (s : Scheduler) : Type 0 where
  pub list : handles s.threads ≡ hs
  pub left : (has h s.ran ≡ true) ⊎ IsPending P h s.threads

-- a change of another thread, or of one that was run
pub IsPending-change :
    (P : Type 0) (h x : ℕ) (f : Thread → Thread) (ts : List Thread) (ran : List ℕ)
    → ((t : Thread) → (f t).handle ≡ t.handle)
    → (x ≡ h → has h ran ≡ true)
    → (has h ran ≡ true) ⊎ IsPending P h ts
    → (has h ran ≡ true) ⊎ IsPending P h (change x f ts)
IsPending-change P h x f ts ran k was (inl done) = inl done
IsPending-change P h x f ts ran k was (inr (p, t, at, ready)) = elim (Bool-cases (x == h)) [
  | inl same ↦ inl (was (==→eq x h same))
  | inr differs ↦ inr (p, t, thread_at-change_other h x f ts k differs ∙ at, ready)
]

pub IsPending-restart :
    (P : Type 0) (h x : ℕ) (ts : List Thread) (ran : List ℕ)
    → (has h ran ≡ true) ⊎ IsPending P h ts
    → (has h ran ≡ true) ⊎ IsPending P h (change x (λ t. record t { yielded = true; line = 0 }) ts)
IsPending-restart P h x ts ran (inl done) = inl done
IsPending-restart P h x ts ran (inr (p, t, at, ready)) = elim (Bool-cases (x == h)) [
  | inl same ↦
      let is = ==→eq x h same in
      inr (
        p,
        record t { yielded = true; line = 0 },
        rw is (thread_at-change h (λ t. record t { yielded = true; line = 0 }) ts t (λ t. refl) at),
        again t ready,
      )
  | inr differs ↦ inr (
    p,
    t,
    thread_at-change_other h x (λ t. record t { yielded = true; line = 0 }) ts (λ t. refl) differs
        ∙ at,
    ready,
  )
]
  where
    again :
        (t : Thread) → is_ready t ≡ true → is_ready (record t { yielded = true; line = 0 }) ≡ true
    again t r = ground (arith, r)
