-- ===== src/Prelude/Lists.antt =====
-- Lists measured and indexed by native numbers, under the library's names.
use Prim.Native.Nat.{ℕ, zero, suc, ◌+◌, ◌≤◌}
use sapphire_os.Prelude.Tests.{◌==◌}
use mathlib.Core.Bool.{Bool, true, false, ◌&&◌}
use mathlib.Core.Path.{◌≡◌, refl, ap}
use mathlib.Core.Logic.{◌⊎◌, inl, inr}
use mathlib.Core.List.{List, [], ◌∷◌, ◌++◌}
use mathlib.Core.Option.{Option, none, some}
use native.Mathlib.Omega.{arith}

module _ {ℓ} {A : Type ℓ} where
  abbrev pub length : List A → ℕ
  length [] = 0
  length (x ∷ xs) = suc (length xs)

  abbrev pub get_elem? : List A → ℕ → Option A
  get_elem? [] i = none
  get_elem? (x ∷ xs) zero = some x
  get_elem? (x ∷ xs) (suc i) = get_elem? xs i

  pub length-append : (xs ys : List A) → length (xs ++ ys) ≡ length xs + length ys
  length-append [] ys = omega arith
  length-append (x ∷ xs) ys = omega (arith, length-append xs ys)

  pub List-cases : (xs : List A) → (xs ≡ []) ⊎ ((x : A) × (ys : List A) × (xs ≡ x ∷ ys))
  List-cases [] = inl refl
  List-cases (x ∷ xs) = inr (x, xs, refl)

-- `memcmp` of two structures
abbrev pub same_bytes : List ℕ → List ℕ → Bool
same_bytes [] [] = true
same_bytes (a ∷ one) (b ∷ two) = (a == b) && same_bytes one two
same_bytes [] (b ∷ two) = false
same_bytes (a ∷ one) [] = false

pub same_bytes_self : (bs : List ℕ) → same_bytes bs bs ≡ true
same_bytes_self [] = refl
same_bytes_self (b ∷ bs) = ground (arith, same_bytes_self bs)

-- the bytes at a pointer, and those behind them
abbrev pub split_at : ℕ → List ℕ → Option (List ℕ × List ℕ)
split_at zero m = some ([], m)
split_at (suc n) [] = none
split_at (suc n) (b ∷ m) = elim (split_at n m) [
  | none ↦ none
  | some (front, rest) ↦ some (b ∷ front, rest)
]

pub split_at-append :
    (n : ℕ) (xs ys : List ℕ) → length xs ≡ n → split_at n (xs ++ ys) ≡ some (xs, ys)
split_at-append zero [] ys p = refl
split_at-append zero (x ∷ xs) ys p = absurd (omega (arith, p))
split_at-append (suc n) [] ys p = absurd (omega (arith, p))
split_at-append (suc n) (x ∷ xs) ys p = rw (split_at-append n xs ys (omega (arith, p))) refl

-- the two parts of a list that is long enough
pub split_at-total :
    (n : ℕ) (m : List ℕ)
    → n ≤ length m
    → (xs : List ℕ) × (ys : List ℕ) × (m ≡ xs ++ ys) × (length xs ≡ n)
split_at-total zero m l = ([], m, refl, refl)
split_at-total (suc n) [] l = absurd (omega arith)
split_at-total (suc n) (x ∷ m) l =
    let (xs, ys, is, size) = split_at-total n m (omega arith) in
    (x ∷ xs, ys, ap (λ zs. x ∷ zs) is, omega (arith, size))

pub split_at-whole : (xs : List ℕ) → split_at (length xs) xs ≡ some (xs, [])
split_at-whole [] = refl
split_at-whole (x ∷ xs) = rw (split_at-whole xs) refl

-- the first `n` entries, and those behind them
module _ {ℓ} {A : Type ℓ} where
  abbrev pub take : ℕ → List A → List A
  take zero xs = []
  take (suc n) [] = []
  take (suc n) (x ∷ xs) = x ∷ take n xs

  abbrev pub drop : ℕ → List A → List A
  drop zero xs = xs
  drop (suc n) [] = []
  drop (suc n) (x ∷ xs) = drop n xs

-- `memset`: `n` equal bytes
abbrev pub repeat : ℕ → ℕ → List ℕ
repeat zero b = []
repeat (suc n) b = b ∷ repeat n b

pub length-repeat : (n b : ℕ) → length (repeat n b) ≡ n
length-repeat zero b = refl
length-repeat (suc n) b = omega (arith, length-repeat n b)

pub take-append : (n : ℕ) (xs ys : List ℕ) → length xs ≡ n → take n (xs ++ ys) ≡ xs
take-append zero [] ys p = refl
take-append zero (x ∷ xs) ys p = absurd (omega (arith, p))
take-append (suc n) [] ys p = absurd (omega (arith, p))
take-append (suc n) (x ∷ xs) ys p = ap (λ zs. x ∷ zs) (take-append n xs ys (omega (arith, p)))
