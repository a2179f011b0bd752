-- ===== src/Threading/Lists.antt =====
-- The list of threads by its handles, and a thread that is to be run.
use sapphire_os.Prelude.{
  ◌==◌, if◌then◌else◌, eq→==, ==→eq, Bool-cases, ℕ, ◌≡◌, refl, sym, ap, ◌∙◌, inl, inr, Bool, true,
  false, ◌||◌, Option, none, some, List, [], ◌∷◌, ◌++◌, arith,
}
use sapphire_os.Threading.{Thread, thread_at, change, first_of, next_thread}

abbrev pub handles : List Thread → List ℕ
handles [] = []
handles (t ∷ ts) = t.handle ∷ handles ts

abbrev pub has : ℕ → List ℕ → Bool
has h [] = false
has h (x ∷ xs) = (x == h) || has h xs

abbrev pub first : List ℕ → Option ℕ
first [] = none
first (x ∷ xs) = some x

-- each handle once
abbrev pub Distinct : List ℕ → Type 0
Distinct [] = Unit
Distinct (x ∷ xs) = (has x xs ≡ false) × Distinct xs

-- the handles from one on
abbrev pub from : ℕ → List ℕ → List ℕ
from h [] = []
from h (x ∷ xs) = if x == h then x ∷ xs else from h xs

pub has-append : (h : ℕ) (xs ys : List ℕ) → has h (xs ++ ys) ≡ (has h xs || has h ys)
has-append h [] ys = refl
has-append h (x ∷ xs) ys = elim (Bool-cases (x == h)) [
  | inl e ↦ rw e refl
  | inr e ↦ rw e (has-append h xs ys)
]

pub handles-change :
    (h : ℕ) (f : Thread → Thread) (ts : List Thread)
    → ((t : Thread) → (f t).handle ≡ t.handle)
    → handles (change h f ts) ≡ handles ts
handles-change h f [] k = refl
handles-change h f (t ∷ ts) k = elim (Bool-cases (t.handle == h)) [
  | inl e ↦ rw e (ap (λ x. x ∷ handles ts) (k t))
  | inr e ↦ rw e (ap (λ xs. t.handle ∷ xs) (handles-change h f ts k))
]

pub thread_at-change :
    (h : ℕ) (f : Thread → Thread) (ts : List Thread) (t : Thread)
    → ((t : Thread) → (f t).handle ≡ t.handle)
    → thread_at h ts ≡ some t
    → thread_at h (change h f ts) ≡ some (f t)
thread_at-change h f [] t k e = cc
thread_at-change h f (u ∷ ts) t k e = elim (Bool-cases (u.handle == h)) [
  | inl i ↦
      let is : some u ≡ some t = rw (← e, i) refl in
      let still : ((f u).handle == h) ≡ true = ap (λ x. x == h) (k u) ∙ i in
      rw (i, still) (ap (λ o. elim o [ none ↦ none | some x ↦ some (f x) ]) is)
  | inr i ↦ rw (i, i) (thread_at-change h f ts t k (rw (← e, i) refl))
]

pub thread_at-change_other :
    (h other : ℕ) (f : Thread → Thread) (ts : List Thread)
    → ((t : Thread) → (f t).handle ≡ t.handle)
    → (other == h) ≡ false
    → thread_at h (change other f ts) ≡ thread_at h ts
thread_at-change_other h other f [] k d = refl
thread_at-change_other h other f (u ∷ ts) k d = elim (Bool-cases (u.handle == other)) [
  | inl i ↦ let away : (u.handle == h) ≡ false = ground (arith, d, i) in rw (i, k u, away) refl
  | inr i ↦ rw (i, thread_at-change_other h other f ts k d) refl
]

-- a handle of the list has a thread
pub thread_at-has :
    (h : ℕ) (ts : List Thread)
    → has h (handles ts) ≡ true
    → (t : Thread) × (thread_at h ts ≡ some t)
thread_at-has h [] e = cc
thread_at-has h (u ∷ ts) e = elim (Bool-cases (u.handle == h)) [
  | inl i ↦ (u, rw i refl)
  | inr i ↦ let (t, is) = thread_at-has h ts (rw (← e, i) refl) in (t, rw i is)
]

pub has-thread_at :
    (h : ℕ) (ts : List Thread) (t : Thread) → thread_at h ts ≡ some t → has h (handles ts) ≡ true
has-thread_at h [] t e = cc
has-thread_at h (u ∷ ts) t e = elim (Bool-cases (u.handle == h)) [
  | inl i ↦ rw i refl
  | inr i ↦ rw i (has-thread_at h ts t (rw (← e, i) refl))
]

tails : {x y : ℕ} {xs ys : List ℕ} → x ∷ xs ≡ y ∷ ys → xs ≡ ys
tails p = ground (arith, p)

heads : {x y : ℕ} {xs ys : List ℕ} → x ∷ xs ≡ y ∷ ys → x ≡ y
heads p = ground (arith, p)

pub first_of-handles : (ts : List Thread) → first_of ts ≡ first (handles ts)
first_of-handles [] = refl
first_of-handles (t ∷ ts) = refl

pub from-has : (h : ℕ) (rest hs : List ℕ) → from h hs ≡ h ∷ rest → has h hs ≡ true
from-has h rest [] e = cc
from-has h rest (x ∷ hs) e = elim (Bool-cases (x == h)) [
  | inl i ↦ rw i refl
  | inr i ↦ rw i (from-has h rest hs (rw (← e, i) refl))
]

-- the node behind a node is the next handle
pub next_thread-from :
    (h : ℕ) (rest : List ℕ) (ts : List Thread)
    → from h (handles ts) ≡ h ∷ rest
    → next_thread h ts ≡ first rest
next_thread-from h rest [] e = cc
next_thread-from h rest (u ∷ ts) e = elim (Bool-cases (u.handle == h)) [
  | inl i ↦
      let is : u.handle ∷ handles ts ≡ h ∷ rest = rw (← e, i) refl in
      rw (i, ← tails is) (first_of-handles ts)
  | inr i ↦ rw i (next_thread-from h rest ts (rw (← e, i) refl))
]

-- where the handles are distinct, what comes from the next one on is the rest
pub from-next :
    (h next : ℕ) (rest hs : List ℕ)
    → Distinct hs
    → from h hs ≡ h ∷ next ∷ rest
    → from next hs ≡ next ∷ rest
from-next h next rest [] d e = cc
from-next h next rest (x ∷ hs) d e = elim (Bool-cases (x == h)) [
  | inl i ↦
      let is : x ∷ hs ≡ h ∷ next ∷ rest = rw (← e, i) refl in
      let off : has x (next ∷ rest) ≡ false = ap (λ xs. has x xs) (sym (tails is)) ∙ d.0 in
      let away : (x == next) ≡ false = ground (arith, off) in
      rw (away, tails is) (rw (eq→== next next refl) refl)
  | inr i ↦
      let later = from-next h next rest hs d.1 (rw (← e, i) refl) in
      let on = from-has next rest hs later in
      let away : (x == next) ≡ false = elim (Bool-cases (x == next)) [
        | inl same ↦ cc (ap (λ y. has y hs) (==→eq x next same), on, d.0)
        | inr differs ↦ differs
      ] in
      rw away later
]
