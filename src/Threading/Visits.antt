-- ===== src/Threading/Visits.antt =====
-- What a visit of the scheduler to one thread keeps of the others.
use sapphire_os.Prelude.{
  lt→ltb, eq→==, Bool-cases, Returns-bind, Returns-mono, Returns, returns, ℕ, ◌≡◌, refl, sym, ap,
  ◌∙◌, ◌⊎◌, inl, inr, Bool, true, false, ◌||◌, Option, List, [], ◌∷◌, ◌++◌,
}
use sapphire_os.Threading.{
  Status, Thread, Call, Scheduler, Machine, max_signals, thread_signal, thread_clear_signal,
  set_active, change, thread_restart, perform, waiting, yielded, sleeping, exited, ended, other,
  active, signal, clear_signal, set_signal_flag, clear_signal_flag, create, restart, perform_all,
  count_run, stop, run_thread, visit, account,
}
use sapphire_os.Threading.Lists.{has, handles-change, first, from, has-append, next_thread-from}
use sapphire_os.Threading.Kept.{
  IsSteady, IsSteadyStatus, AreSteadyCalls, Alive, IsPending, IsPending-change, IsPending-restart,
}

last_one : (done : Bool) (x h : ℕ) → x ≡ h → (done || has h (x ∷ [])) ≡ true
last_one true x h e = refl
last_one false x h e = rw (eq→== x h e) refl

module _ {W : Type 0} (machine : Machine W) (P : Type 0) where
  -- while the thread `x` runs
  abbrev Inside : ℕ → List ℕ → ℕ → Scheduler × W → Type 0
  Inside x hs h (s, w) = (s.current ≡ x) × Alive P hs h s × (x ≡ h → has h s.ran ≡ true)

  perform-Inside :
      (x h : ℕ) (hs : List ℕ) (c : Call) (s : Scheduler) (w : W)
      → AreSteadyCalls (c ∷ [])
      → Inside x hs h (s, w)
      → Returns (Inside x hs h) (perform machine c s w)
  unfolding perform thread_signal thread_clear_signal set_active thread_restart
  perform-Inside x h hs active s w q (c, a, was) =
      returns (c, record { list = a.list; left = a.left }, was)
  perform-Inside x h hs (signal n) s w q (c, a, was) =
      rw (lt→ltb n max_signals q.0) (returns (c, record { list = a.list; left = a.left }, was))
  perform-Inside x h hs (clear_signal n) s w q (c, a, was) =
      rw (lt→ltb n max_signals q.0) (returns (c, record { list = a.list; left = a.left }, was))
  perform-Inside x h hs set_signal_flag s w q (c, a, was) = returns (
    c,
    record {
      list =
          handles-change s.current (λ t. record t { signal = true }) s.threads (λ t. refl) ∙ a.list;
      left =
          IsPending-change P h s.current (λ t. record t { signal = true }) s.threads s.ran
            (λ t. refl) (λ e. was (sym c ∙ e)) a.left;
    },
    was,
  )
  perform-Inside x h hs clear_signal_flag s w q (c, a, was) = returns (
    c,
    record {
      list =
          handles-change s.current (λ t. record t { signal = false }) s.threads (λ t. refl)
          ∙ a.list;
      left =
          IsPending-change P h s.current (λ t. record t { signal = false }) s.threads s.ran
            (λ t. refl) (λ e. was (sym c ∙ e)) a.left;
    },
    was,
  )
  perform-Inside x h hs (create f) s w q i = absurd q
  perform-Inside x h hs (restart r) s w q (c, a, was) = returns (
    c,
    record {
      list =
          handles-change r (λ t. record t { yielded = true; line = 0 }) s.threads (λ t. refl)
          ∙ a.list;
      left = IsPending-restart P h r s.threads s.ran a.left;
    },
    was,
  )

  steady_calls :
      (c : Call) (calls : List Call)
      → AreSteadyCalls (c ∷ calls)
      → AreSteadyCalls (c ∷ []) × AreSteadyCalls calls
  steady_calls active calls q = (tt, q)
  steady_calls (signal n) calls q = ((q.0, tt), q.1)
  steady_calls (clear_signal n) calls q = ((q.0, tt), q.1)
  steady_calls set_signal_flag calls q = (tt, q)
  steady_calls clear_signal_flag calls q = (tt, q)
  steady_calls (create f) calls q = absurd q
  steady_calls (restart r) calls q = (tt, q)

  perform_all-Inside :
      (x h : ℕ) (hs : List ℕ) (calls : List Call) (s : Scheduler) (w : W)
      → AreSteadyCalls calls
      → Inside x hs h (s, w)
      → Returns (Inside x hs h) (perform_all machine calls s w)
  unfolding perform_all
  perform_all-Inside x h hs [] s w q i = returns i
  perform_all-Inside x h hs (c ∷ calls) s w q i =
      let parts = steady_calls c calls q in
      Returns-bind (perform-Inside x h hs c s w parts.0 i)
        λ (s', w') i'. perform_all-Inside x h hs calls s' w' parts.1 i'

  -- a change of the thread that runs
  changed :
      (x h : ℕ) (hs : List ℕ) (f : Thread → Thread) (s : Scheduler)
      → ((t : Thread) → (f t).handle ≡ t.handle)
      → Alive P hs h s
      → (x ≡ h → has h s.ran ≡ true)
      → Alive P hs h (record s { threads = change x f s.threads })
  changed x h hs f s k a was = record {
    list = handles-change x f s.threads k ∙ a.list;
    left = IsPending-change P h x f s.threads s.ran k was a.left;
  }

  account-Alive :
      (x h : ℕ) (hs : List ℕ) (line elapsed : ℕ) (s : Scheduler)
      → Alive P hs h s
      → (x ≡ h → has h s.ran ≡ true)
      → Alive P hs h (account x line elapsed s)
        × (x ≡ h → has h (account x line elapsed s).ran ≡ true)
  unfolding account count_run
  account-Alive x h hs line elapsed s a was =
      let resumed = changed x h hs (λ t. record t { line = line }) s (λ t. refl) a was in
      elim (Bool-cases s.active) [
        | inl e ↦
            let counted =
              changed x h hs (count_run elapsed)
                (record s { threads = change x (λ t. record t { line = line }) s.threads })
                (λ t. refl) resumed was in
            rw e (record { list = counted.list; left = counted.left }, was)
        | inr e ↦ rw e (record { list = resumed.list; left = resumed.left }, was)
      ]

  stop-Alive :
      (x h : ℕ) (hs : List ℕ) (status : Status) (s : Scheduler) (w : W)
      → IsSteadyStatus status
      → Alive P hs h s
      → (x ≡ h → has h s.ran ≡ true)
      → Returns
          (λ (s', w'). Alive P hs h s' × (x ≡ h → has h s'.ran ≡ true))
          (stop machine status x s w)
  unfolding stop
  stop-Alive x h hs waiting s w q a was =
      returns (changed x h hs (λ t. record t { waiting = true }) s (λ t. refl) a was, was)
  stop-Alive x h hs yielded s w q a was =
      returns (changed x h hs (λ t. record t { yielded = true }) s (λ t. refl) a was, was)
  stop-Alive x h hs sleeping s w q a was =
      returns (changed x h hs (λ t. record t { sleeping = true }) s (λ t. refl) a was, was)
  stop-Alive x h hs exited s w q a was = absurd q
  stop-Alive x h hs ended s w q a was = absurd q
  stop-Alive x h hs other s w q a was = absurd q

  -- what a visit of the thread `x` keeps, and where it goes on
  abbrev pub Visited : List ℕ → List ℕ → ℕ → ℕ → Option ℕ × (Scheduler × W) → Type 0
  Visited hs rest h x (next, (s, w)) = (next ≡ first rest) × Alive P hs h s

  module _ (steady : IsSteady machine) where
    run_thread-Visited :
        (x h : ℕ) (hs rest : List ℕ) (t : Thread) (s : Scheduler) (w : W)
        → from x hs ≡ x ∷ rest
        → Alive P hs h (record s { ran = s.ran ++ x ∷ [] })
        → Returns
            (λ out. Visited hs rest h x out × (x ≡ h → has h out.1.0.ran ≡ true))
            (run_thread machine x t s w)
    unfolding run_thread count_run
    run_thread-Visited x h hs rest t s w at a =
        let out = machine.body t.function t.line w in
        let was : x ≡ h → has h (s.ran ++ x ∷ []) ≡ true =
          λ e. has-append h s.ran (x ∷ []) ∙ last_one (has h s.ran) x h e in
        Returns-bind
          (perform_all-Inside x h hs out.calls
            (record s { current = x; active = false; ran = s.ran ++ x ∷ [] }) out.world
            (steady.calls t.function t.line w) (refl, record { list = a.list; left = a.left }, was))
          λ (called, w1) (cur, alive, ran_).
            let (counted, counted_ran) =
              account-Alive x h hs out.line out.elapsed_us called alive ran_ in
            Returns-bind
              (stop-Alive x h hs out.status (account x out.line out.elapsed_us called) w1
                (steady.statuses t.function t.line w) counted counted_ran)
              λ (s', w') (a', ran'). returns (
                (
                  next_thread-from x rest (account x out.line out.elapsed_us called).threads
                      (ap (from x) counted.list ∙ at),
                  a',
                ),
                ran',
              )

    pub visit-Visited :
        (go : Bool) (x h : ℕ) (hs rest : List ℕ) (t : Thread) (s : Scheduler) (w : W)
        → from x hs ≡ x ∷ rest
        → Alive P hs h s
        → Returns
            (λ out. Visited hs rest h x out × (x ≡ h → go ≡ true → has h out.1.0.ran ≡ true))
            (visit machine go x t s w)
    unfolding visit
    visit-Visited false x h hs rest t s w at a =
        returns ((next_thread-from x rest s.threads (ap (from x) a.list ∙ at), a), λ e f. cc)
    visit-Visited true x h hs rest t s w at a =
        let clear = λ (u : Thread). record u { waiting = false; yielded = false } in
        let was : x ≡ h → has h (s.ran ++ x ∷ []) ≡ true =
          λ e. has-append h s.ran (x ∷ []) ∙ last_one (has h s.ran) x h e in
        let longer : (has h (s.ran ++ x ∷ []) ≡ true) ⊎ IsPending P h s.threads = elim a.left [
          | inl done ↦ inl (has-append h s.ran (x ∷ []) ∙ rw done refl)
          | inr p ↦ inr p
        ] in
        Returns-mono
          (run_thread-Visited x h hs rest (record t { waiting = false; yielded = false })
            (record s { threads = change x clear s.threads }) w at
            (record {
              list = handles-change x clear s.threads (λ t. refl) ∙ a.list;
              left =
                  IsPending-change P h x clear s.threads (s.ran ++ x ∷ []) (λ t. refl) was longer;
            }))
          λ out (v, r). (v, λ e f. r e)
