-- ===== src/FfsBlock/Links.antt =====
-- What writes to the links do to a list: a block behind the last one, a block taken out, a block in
-- the place of another.
use sapphire_os.Prelude.{
  ◌==◌, ==→eq, Bool-cases, update, minus_one, ℤ, pos, ℕ, ◌<◌, ◌≡◌, sym, ◌≢◌, inl, inr, true, false,
  List, [], ◌∷◌, ◌++◌, arith,
}
use mathlib.Core.Path.{subst₂}
use sapphire_os.FfsBlock.Chains.{has, Chain, Nodup, erase, Chain-update}
use sapphire_os.FfsBlock.Walks.{last, before}
use sapphire_os.FfsBlock.Members.{has-last, replace}

pub Chain-append :
    (n : ℕ) (f : ℕ → ℤ) (b : ℕ) (h : ℤ) (x : ℕ) (xs : List ℕ)
    → Chain n f h (x ∷ xs)
    → Nodup (x ∷ xs)
    → b < n
    → f b ≡ minus_one
    → has b (x ∷ xs) ≡ false
    → Chain n (update f (last x xs) (pos b)) h (x ∷ xs ++ b ∷ [])
Chain-append n f b h x [] c d l e o = (c.0, c.1, (ground arith, l, ground arith))
Chain-append n f b h x (y ∷ ys) c d l e o =
    let same : update f (last y ys) (pos b) x ≡ f x = ground (arith, has-last y ys, d.0) in
    (c.0, c.1, rw same (Chain-append n f b (f x) y ys c.2 d.1 l e (ground arith)))

module _ (n : ℕ) (f : ℕ → ℤ) where
  before_ne : (b x z : ℕ) (xs : List ℕ) → has z (x ∷ xs) ≡ false → before b x xs ≢ z
  before_ne b x z [] h e = ground arith
  before_ne b x z (y ∷ ys) h e = ground (arith, before_ne b y z ys)

  pub Chain-erase :
      (b : ℕ) (h : ℤ) (x : ℕ) (xs : List ℕ)
      → Chain n f h (x ∷ xs)
      → Nodup (x ∷ xs)
      → has b xs ≡ true
      → Chain n (update f (before b x xs) (f b)) h (x ∷ erase b xs)
  Chain-erase b h x [] c d i = cc
  Chain-erase b h x (y ∷ ys) c d i = elim (Bool-cases (y == b)) [
    | inl e ↦
        let at : y ≡ b = ==→eq y b e in
        let head : update f x (f b) x ≡ f y = ground arith in
        let prev : before b x (y ∷ ys) ≡ x = rw e in
        let less : erase b (y ∷ ys) ≡ ys = rw e in
        subst₂ (λ q zs. Chain n (update f q (f b)) h (x ∷ zs)) (sym prev) (sym less)
          (c.0, c.1, rw head (Chain-update n f x (f b) (f y) ys (ground arith) c.2.2))
    | inr e ↦
        let i' : has b ys ≡ true = ground arith in
        let same : update f (before b y ys) (f b) x ≡ f x =
          ground (arith, before_ne b y x ys d.0) in
        let prev : before b x (y ∷ ys) ≡ before b y ys = rw e in
        let less : erase b (y ∷ ys) ≡ y ∷ erase b ys = rw e in
        subst₂ (λ q zs. Chain n (update f q (f b)) h (x ∷ zs)) (sym prev) (sym less)
          (c.0, c.1, rw same (Chain-erase b (f x) y ys c.2 d.1 i'))
  ]

  pub Chain-replace :
      (old new : ℕ) (h : ℤ) (x : ℕ) (xs : List ℕ)
      → Chain n f h (x ∷ xs)
      → Nodup (x ∷ xs)
      → has old xs ≡ true
      → has new (x ∷ xs) ≡ false
      → new < n
      → Chain n
          (update (update f (before old x xs) (pos new)) new (f old))
          h
          (x ∷ replace old new xs)
  Chain-replace old new h x [] c d i o l = cc
  Chain-replace old new h x (y ∷ ys) c d i o l = elim (Bool-cases (y == old)) [
    | inl e ↦
        let at : y ≡ old = ==→eq y old e in
        let f' = update (update f x (pos new)) new (f old) in
        let head : f' x ≡ pos new = ground arith in
        let next : f' new ≡ f y = ground arith in
        let prev : before old x (y ∷ ys) ≡ x = rw e in
        let changed : replace old new (y ∷ ys) ≡ new ∷ ys = rw e in
        subst₂ (λ q zs. Chain n (update (update f q (pos new)) new (f old)) h (x ∷ zs)) (sym prev)
          (sym changed)
          (
            c.0,
            c.1,
            (
              head,
              l,
              rw next (
                  Chain-update n (update f x (pos new)) new (f old) (f y) ys (ground arith)
                    (Chain-update n f x (pos new) (f y) ys (ground arith) c.2.2)),
            ),
          )
    | inr e ↦
        let i' : has old ys ≡ true = ground arith in
        let same : update (update f (before old y ys) (pos new)) new (f old) x ≡ f x =
          ground (arith, before_ne old y x ys d.0) in
        let prev : before old x (y ∷ ys) ≡ before old y ys = rw e in
        let changed : replace old new (y ∷ ys) ≡ y ∷ replace old new ys = rw e in
        subst₂ (λ q zs. Chain n (update (update f q (pos new)) new (f old)) h (x ∷ zs)) (sym prev)
          (sym changed)
          (c.0, c.1, rw same (Chain-replace old new (f x) y ys c.2 d.1 i' (ground arith) l))
  ]
