-- ===== src/FfsBlock/Chains.antt =====
-- The linked lists of src/ffs_block.c as the lists of block numbers that they stand for.
use sapphire_os.Prelude.{
  ◌==◌, if◌then◌else◌, Bool-cases, update, length, minus_one, ℤ, pos, ℕ, zero, suc, ◌+◌, ◌≤◌, ◌<◌,
  ◌≡◌, refl, inl, inr, Bool, false, ◌||◌, List, [], ◌∷◌, arith,
}

abbrev pub has : ℕ → List ℕ → Bool
has a [] = false
has a (x ∷ xs) = (a == x) || has a xs

-- from `h` the links `f` lead through the blocks `xs`, all below `n`, to -1
abbrev pub Chain : ℕ → (ℕ → ℤ) → ℤ → List ℕ → Type 0
Chain n f h [] = h ≡ minus_one
Chain n f h (x ∷ xs) = (h ≡ pos x) × (x < n) × Chain n f (f x) xs

abbrev pub Nodup : List ℕ → Type 0
Nodup [] = Unit
Nodup (x ∷ xs) = (has x xs ≡ false) × Nodup xs

abbrev pub erase : ℕ → List ℕ → List ℕ
erase a [] = []
erase a (x ∷ xs) = if x == a then xs else x ∷ erase a xs

abbrev pub AllBelow : ℕ → List ℕ → Type 0
AllBelow n [] = Unit
AllBelow n (x ∷ xs) = (x < n) × AllBelow n xs

pub Chain-AllBelow : (n : ℕ) (f : ℕ → ℤ) (h : ℤ) (xs : List ℕ) → Chain n f h xs → AllBelow n xs
Chain-AllBelow n f h [] c = tt
Chain-AllBelow n f h (x ∷ xs) c = (c.1, Chain-AllBelow n f (f x) xs c.2)

-- a write to a block that is not on the list leaves the list alone
pub Chain-update :
    (n : ℕ) (f : ℕ → ℤ) (a : ℕ) (v h : ℤ) (xs : List ℕ)
    → has a xs ≡ false
    → Chain n f h xs
    → Chain n (update f a v) h xs
Chain-update n f a v h [] out c = c
Chain-update n f a v h (x ∷ xs) out c =
    let e : update f a v x ≡ f x = ground arith in
    (c.0, c.1, Chain-update n f a v (update f a v x) xs (ground arith) (rw e c.2))

-- numbers below `n + 1`, less one: numbers below `n`
erase-AllBelow : (n : ℕ) (xs : List ℕ) → AllBelow (suc n) xs → Nodup xs → AllBelow n (erase n xs)
erase-AllBelow n [] b d = tt
erase-AllBelow n (x ∷ xs) b d = elim (Bool-cases (x == n)) [
  | inl e ↦ rw e (lower xs b.1 (ground arith))
  | inr e ↦ rw e (ground arith, erase-AllBelow n xs b.1 d.1)
]
  where
    lower : (ys : List ℕ) → AllBelow (suc n) ys → has n ys ≡ false → AllBelow n ys
    lower [] b h = tt
    lower (y ∷ ys) b h = (ground arith, lower ys b.1 (ground arith))

has-erase : (a b : ℕ) (xs : List ℕ) → has a xs ≡ false → has a (erase b xs) ≡ false
has-erase a b [] h = refl
has-erase a b (x ∷ xs) h = ground (arith, has-erase a b xs)

pub Nodup-erase : (b : ℕ) (xs : List ℕ) → Nodup xs → Nodup (erase b xs)
Nodup-erase b [] d = tt
Nodup-erase b (x ∷ xs) d = elim (Bool-cases (x == b)) [
  | inl e ↦ rw e d.1
  | inr e ↦ rw e (has-erase x b xs d.0, Nodup-erase b xs d.1)
]

length-erase : (b : ℕ) (xs : List ℕ) → length xs ≤ length (erase b xs) + 1
length-erase b [] = omega arith
length-erase b (x ∷ xs) = ground (arith, length-erase b xs)

-- a list without repetition of numbers below `n` has `n` entries at most
pub length-le : (n : ℕ) (xs : List ℕ) → AllBelow n xs → Nodup xs → length xs ≤ n
length-le zero [] b d = omega arith
length-le zero (x ∷ xs) b d = absurd (omega arith)
length-le (suc n) xs b d = omega (
  arith,
  length-erase n xs,
  length-le n (erase n xs) (erase-AllBelow n xs b d) (Nodup-erase n xs d),
)
