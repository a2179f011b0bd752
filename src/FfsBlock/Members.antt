-- ===== src/FfsBlock/Members.antt =====
-- Which blocks are on a list of src/ffs_block.c that was changed, and how many.
use sapphire_os.Prelude.{
  ◌==◌, if◌then◌else◌, Bool-cases, length, ℕ, ◌+◌, ◌<◌, ◌≡◌, refl, inl, inr, true, false, ◌||◌,
  List, [], ◌∷◌, ◌++◌, arith,
}
use sapphire_os.FfsBlock.Chains.{has, Nodup, erase, AllBelow}
use sapphire_os.FfsBlock.Walks.{last, before}

-- `new` in the place of the first `old`
abbrev pub replace : ℕ → ℕ → List ℕ → List ℕ
replace old new [] = []
replace old new (x ∷ xs) = if x == old then new ∷ xs else x ∷ replace old new xs

pub has-last : (x : ℕ) (xs : List ℕ) → has (last x xs) (x ∷ xs) ≡ true
has-last x [] = ground arith
has-last x (y ∷ ys) = ground (arith, has-last y ys)

pub has-before : (b x : ℕ) (xs : List ℕ) → has (before b x xs) (x ∷ xs) ≡ true
has-before b x [] = ground arith
has-before b x (y ∷ ys) = ground (arith, has-before b y ys)

pub before_ne_self : (b x : ℕ) (xs : List ℕ) → (x == b) ≡ false → (before b x xs == b) ≡ false
before_ne_self b x [] h = h
before_ne_self b x (y ∷ ys) h = elim (Bool-cases (y == b)) [
  | inl e ↦ rw e h
  | inr e ↦ rw e (before_ne_self b y ys e)
]

pub has→lt : (n a : ℕ) (xs : List ℕ) → AllBelow n xs → has a xs ≡ true → a < n
has→lt n a [] b h = absurd (cc h)
has→lt n a (x ∷ xs) b h = elim (Bool-cases (a == x)) [
  | inl e ↦ ground arith
  | inr e ↦ has→lt n a xs b.1 (ground arith)
]

pub has-append : (a b : ℕ) (xs : List ℕ) → has a (xs ++ b ∷ []) ≡ has a xs || (a == b)
has-append a b [] = ground arith
has-append a b (x ∷ xs) = ground (arith, has-append a b xs)

pub Nodup-append : (b : ℕ) (xs : List ℕ) → Nodup xs → has b xs ≡ false → Nodup (xs ++ b ∷ [])
Nodup-append b [] d h = (refl, tt)
Nodup-append b (x ∷ xs) d h =
    (ground (arith, has-append x b xs), Nodup-append b xs d.1 (ground arith))

pub has-erase→ : (a b : ℕ) (xs : List ℕ) → has a (erase b xs) ≡ true → has a xs ≡ true
has-erase→ a b [] h = h
has-erase→ a b (x ∷ xs) h = ground (arith, has-erase→ a b xs)

pub length-erase-has : (b : ℕ) (xs : List ℕ) → has b xs ≡ true → length (erase b xs) + 1 ≡ length xs
length-erase-has b [] h = absurd (cc h)
length-erase-has b (x ∷ xs) h = ground (arith, length-erase-has b xs)

pub has-replace→ :
    (a old new : ℕ) (xs : List ℕ)
    → has a (replace old new xs) ≡ true
    → (a == new) || has a xs ≡ true
has-replace→ a old new [] h = absurd (cc h)
has-replace→ a old new (x ∷ xs) h = ground (arith, has-replace→ a old new xs)

pub Nodup-replace :
    (old new : ℕ) (xs : List ℕ) → Nodup xs → has new xs ≡ false → Nodup (replace old new xs)
Nodup-replace old new [] d h = tt
Nodup-replace old new (x ∷ xs) d h = elim (Bool-cases (x == old)) [
  | inl e ↦ rw e (ground arith, d.1)
  | inr e ↦
      let out : has x (replace old new xs) ≡ false =
        elim (Bool-cases (has x (replace old new xs))) [
          | inl i ↦ absurd (ground (arith, has-replace→ x old new xs i, d.0))
          | inr i ↦ i
        ] in
      rw e (out, Nodup-replace old new xs d.1 (ground arith))
]

pub length-replace : (old new : ℕ) (xs : List ℕ) → length (replace old new xs) ≡ length xs
length-replace old new [] = refl
length-replace old new (x ∷ xs) = ground (arith, length-replace old new xs)
