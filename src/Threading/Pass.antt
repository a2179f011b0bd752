-- ===== src/Threading/Pass.antt =====
-- A round of the scheduler calls the body of every thread that waits for it.
use sapphire_os.Prelude.{
  ◌==◌, if◌then◌else◌, eq→==, ==→eq, Bool-cases, length, Returns-bind, Returns, ok, returns, ℕ,
  zero, suc, ◌<◌, ◌≡◌, refl, sym, ap, ◌∙◌, inl, inr, Bool, true, false, some, List, [], ◌∷◌, arith,
}
use sapphire_os.Threading.{
  Thread, Scheduler, Machine, thread_at, signalled_loop, process_signalled_threads, is_ready,
  waiting_loop, doze, pass,
}
use sapphire_os.Threading.Lists.{
  handles, has, first, Distinct, from, from-has, from-next, first_of-handles, thread_at-has,
  has-thread_at,
}
use sapphire_os.Threading.Kept.{IsSteady, Alive}
use sapphire_os.Threading.Visits.{visit-Visited}

-- the end of a list, from one of its handles on
abbrev IsSuffix : List ℕ → List ℕ → Type 0
IsSuffix hs [] = Unit
IsSuffix hs (x ∷ rest) = from x hs ≡ x ∷ rest

IsSuffix-next : (hs rest : List ℕ) (x : ℕ) → Distinct hs → IsSuffix hs (x ∷ rest) → IsSuffix hs rest
IsSuffix-next hs [] x d e = tt
IsSuffix-next hs (y ∷ rest) x d e = from-next x y rest hs d e

IsSuffix-self : (hs : List ℕ) → IsSuffix hs hs
IsSuffix-self [] = tt
IsSuffix-self (x ∷ hs) = rw (eq→== x x refl) refl

length-handles : (ts : List Thread) → length (handles ts) ≡ length ts
length-handles [] = refl
length-handles (t ∷ ts) = omega (arith, length-handles ts)

module _ {W : Type 0} (machine : Machine W) (steady : IsSteady machine) (hs : List ℕ)
    (d : Distinct hs) (h : ℕ) where
  -- the thread at a handle of the list
  present :
      (P : Type 0) (x : ℕ) (rest : List ℕ) (s : Scheduler)
      → IsSuffix hs (x ∷ rest)
      → Alive P hs h s
      → (t : Thread) × (thread_at x s.threads ≡ some t)
  present P x rest s e a = thread_at-has x s.threads (ap (has x) a.list ∙ from-has x rest hs e)

  signalled_loop-Alive :
      (P : Type 0) (k : ℕ) (rest : List ℕ) (s : Scheduler) (w : W)
      → IsSuffix hs rest
      → length rest < k
      → Alive P hs h s
      → Returns (λ (s', w'). Alive P hs h s') (signalled_loop machine k (first rest) s w)
  unfolding signalled_loop
  signalled_loop-Alive P zero rest s w e l a = absurd (omega arith)
  signalled_loop-Alive P (suc k) [] s w e l a = returns a
  signalled_loop-Alive P (suc k) (x ∷ rest) s w e l a =
      let (t, at) = present P x rest s e a in
      rw at (
        Returns-bind (visit-Visited machine P steady t.signal x h hs rest t s w e a)
          λ (next, (s', w')) ((is, a'), r).
            rw is
              (signalled_loop-Alive P k rest s' w' (IsSuffix-next hs rest x d e) (omega arith) a'))

  process-Alive :
      (P : Type 0) (k : ℕ) (signal : Bool) (s : Scheduler) (w : W)
      → length hs < k
      → Alive P hs h s
      → Returns
          (λ (s', w'). Alive P hs h s')
          (if signal then process_signalled_threads machine k s w else ok (s, w))
  unfolding process_signalled_threads
  process-Alive P k false s w l a = returns a
  process-Alive P k true s w l a =
      rw (first_of-handles s.threads, a.list)
        (signalled_loop-Alive P k hs (record s { signal = false }) w (IsSuffix-self hs) l
          (record { list = a.list; left = a.left }))

  -- `wanted`: where the thread may be waiting still, it comes later in the walk
  waiting_loop-ran :
      (P : Type 0) (k j : ℕ) (rest : List ℕ) (s : Scheduler) (w : W)
      → IsSuffix hs rest
      → length hs < k
      → length rest < j
      → (P → has h rest ≡ true)
      → Alive P hs h s
      → Returns
          (λ (s', w'). (handles s'.threads ≡ hs) × (has h s'.ran ≡ true))
          (waiting_loop machine k j (first rest) s w)
  unfolding waiting_loop
  waiting_loop-ran P k zero rest s w e l m wanted a = absurd (omega arith)
  waiting_loop-ran P k (suc j) [] s w e l m wanted a = elim a.left [
    | inl done ↦ returns (a.list, done)
    | inr pending ↦ cc (wanted pending.0)
  ]
  waiting_loop-ran P k (suc j) (x ∷ rest) s w e l m wanted a =
      Returns-bind (process-Alive P k s.signal s w l a) λ (s1, w1) a1.
        let (t, at) = present P x rest s1 e a1 in
        let next = IsSuffix-next hs rest x d e in
        let last =
          λ (s2 : Scheduler) (w2 : W) (list : handles s2.threads ≡ hs) (done : has h s2.ran ≡ true).
            waiting_loop-ran ⊥ k j rest s2 w2 next l (omega arith) (λ p. absurd p)
              (record { list = list; left = inl done }) in
        rw at (elim (Bool-cases (x == h)) [
          | inl same ↦ elim a1.left [
            | inl done ↦
                Returns-bind
                  (visit-Visited machine ⊥ steady (is_ready t) x h hs rest t s1 w1 e
                    (record { list = a1.list; left = inl done }))
                  λ (n, (s2, w2)) ((is, a2), r).
                    rw is
                      (waiting_loop-ran ⊥ k j rest s2 w2 next l (omega arith) (λ p. absurd p) a2)
            | inr (p, t', at', ready) ↦
                let go : is_ready t ≡ true =
                  same_thread t t'
                    (sym at ∙ ap (λ y. thread_at y s1.threads) (==→eq x h same) ∙ at') ready in
                Returns-bind (visit-Visited machine P steady (is_ready t) x h hs rest t s1 w1 e a1)
                  λ (n, (s2, w2)) ((is, a2), r). rw is (last s2 w2 a2.list (r (==→eq x h same) go))
          ]
          | inr differs ↦
              Returns-bind (visit-Visited machine P steady (is_ready t) x h hs rest t s1 w1 e a1)
                λ (n, (s2, w2)) ((is, a2), r). rw is (
                  waiting_loop-ran P k j rest s2 w2 next l (omega arith)
                    (λ p. later differs (wanted p)) a2)
        ])
    where
      same_thread : (t t' : Thread) → some t ≡ some t' → is_ready t' ≡ true → is_ready t ≡ true
      same_thread t t' e r = ground (arith, e, r)

      later : (x == h) ≡ false → has h (x ∷ rest) ≡ true → has h rest ≡ true
      later n o = ground (arith, n, o)

-- the sleep changes no thread
dozed :
    {W : Type 0} (machine : Machine W) (go : Bool) (s : Scheduler) (w : W) (hs : List ℕ) (h : ℕ)
    → (handles s.threads ≡ hs) × (has h s.ran ≡ true)
    → (handles (doze machine go s w).0.threads ≡ hs) × (has h (doze machine go s w).0.ran ≡ true)
unfolding doze
dozed machine true s w hs h p = p
dozed machine false s w hs h p = p

-- On a machine whose bodies neither end nor make threads, one round of the scheduler ends, with more
-- steps than there are threads for each of its loops. The threads stay the same, and the body of each
-- thread that was waiting or yielded before, and waited for no signal, was called.
pub pass-ran :
    {W : Type 0} (machine : Machine W) (k h : ℕ) (t : Thread) (s : Scheduler) (w : W)
    → IsSteady machine
    → Distinct (handles s.threads)
    → length s.threads < k
    → s.ran ≡ []
    → thread_at h s.threads ≡ some t
    → is_ready t ≡ true
    → Returns
        (λ (s', w'). (handles s'.threads ≡ handles s.threads) × (has h s'.ran ≡ true))
        (pass machine k s w)
unfolding pass
pass-ran machine k h t s w steady d l empty at ready =
    let hs = handles s.threads in
    rw (first_of-handles s.threads) (
      Returns-bind
        (waiting_loop-ran machine steady hs d h (Unit {0}) k k hs (record s { sleep = true }) w
          (IsSuffix-self hs) (omega (arith, length-handles s.threads))
          (omega (arith, length-handles s.threads)) (λ p. has-thread_at h s.threads t at)
          (record { list = refl; left = inr (tt, t, at, ready) }))
        λ (s', w') p. returns (dozed machine s'.sleep s' w' hs h p))
