-- ===== src/FfsBlock/Walks.antt =====
-- The loops of src/ffs_block.c along a list: what they find, and that their rounds are enough.
use sapphire_os.Prelude.{
  ◌==◌, if◌then◌else◌, lt→ltb, Bool-cases, length, is_neg, minus_one, ℤ, add8, ◌>>=◌, assert, pos,
  ok, ℕ, zero, suc, ◌+◌, ◌%◌, ◌^◌, ◌≤◌, ◌<◌, ◌≡◌, refl, ap, ◌∙◌, inl, inr, true, not, List, [], ◌∷◌,
  arith,
}
use sapphire_os.FfsBlock.{
  Blocks, below_total, next_of, eq_block, last_block, prev_block, search_from, count_from, nth_from,
}
use sapphire_os.FfsBlock.Chains.{has, Chain}

-- the last block of a list
abbrev pub last : ℕ → List ℕ → ℕ
last x [] = x
last x (y ∷ ys) = last y ys

-- the block before `b` on a list
abbrev pub before : ℕ → ℕ → List ℕ → ℕ
before b x [] = x
before b x (y ∷ ys) = if y == b then x else before b y ys

-- what a list has at an index, -1 behind its end
abbrev pub nth : ℕ → List ℕ → ℤ
nth i [] = minus_one
nth zero (x ∷ xs) = pos x
nth (suc i) (x ∷ xs) = nth i xs

module _ (s : Blocks) where
  abbrev pub Linked : ℤ → List ℕ → Type 0
  Linked h xs = Chain s.total_blocks s.next_block h xs

  -- one round of each loop, at a block inside the array
  search_from-step :
      (k b x : ℕ)
      → x < s.total_blocks
      → search_from (suc k) (pos b) (pos x) s
        ≡ (if x == b then ok true else search_from k (pos b) (s.next_block x) s)
  unfolding search_from next_of below_total
  search_from-step k b x l = ground arith

  count_from-step :
      (k count x : ℕ)
      → x < s.total_blocks
      → count_from (suc k) (pos x) count s ≡ count_from k (s.next_block x) (add8 count 1) s
  unfolding count_from next_of below_total
  count_from-step k count x l = ground arith

  last_block-step :
      (k x : ℕ)
      → x < s.total_blocks
      → last_block (suc k) (pos x) s ≡ (
          if eq_block (s.next_block x) minus_one
          then ok (pos x)
          else last_block k (s.next_block x) s)
  unfolding last_block next_of below_total
  last_block-step k x l = ground arith

  prev_block-step :
      (k b x : ℕ)
      → x < s.total_blocks
      → prev_block (suc k) (pos b) (pos x) s ≡ (
          if eq_block (s.next_block x) (pos b)
          then ok (pos x)
          else (assert (not (is_neg (s.next_block x))) >>= λ _.
              prev_block k (pos b) (s.next_block x) s))
  unfolding prev_block next_of below_total
  prev_block-step k b x l = ground arith

  pub search_from-has :
      (k b : ℕ) (h : ℤ) (xs : List ℕ)
      → Linked h xs
      → length xs < k
      → search_from k (pos b) h s ≡ ok (has b xs)
  search_from-has zero b h xs c f = absurd (omega arith)
  search_from-has (suc k) b h [] c f = rw c (unfold search_from in refl)
  search_from-has (suc k) b h (x ∷ xs) c f =
      rw (c.0, search_from-step k b x c.1)
        (ground (arith, search_from-has k b (s.next_block x) xs c.2))

  pub count_from-length :
      (k count : ℕ) (h : ℤ) (xs : List ℕ)
      → Linked h xs
      → length xs < k
      → count < 2 ^ 8
      → count_from k h count s ≡ ok ((count + length xs) % 2 ^ 8)
  count_from-length zero count h xs c f l = absurd (omega arith)
  count_from-length (suc k) count h [] c f l =
      rw c (unfold count_from in ap (λ n. ok n) (omega arith))
  count_from-length (suc k) count h (x ∷ xs) c f l =
      rw (c.0, count_from-step k count x c.1)
        (count_from-length k (add8 count 1) (s.next_block x) xs c.2 (omega arith) (omega arith)
          ∙ ap (λ n. ok n) (omega arith))

  pub nth_from-nth : (i : ℕ) (h : ℤ) (xs : List ℕ) → Linked h xs → nth_from i h s ≡ ok (nth i xs)
  unfolding nth_from next_of
  nth_from-nth zero h [] c = ap (λ v. ok v) c
  nth_from-nth zero h (x ∷ xs) c = ap (λ v. ok v) c.0
  nth_from-nth (suc i) h [] c = rw c
  nth_from-nth (suc i) h (x ∷ xs) c =
      rw c.0 (ground (arith, lt→ltb x s.total_blocks c.1, nth_from-nth i (s.next_block x) xs c.2))

  pub last_block-last :
      (k : ℕ) (h : ℤ) (x : ℕ) (xs : List ℕ)
      → Linked h (x ∷ xs)
      → length xs < k
      → last_block k h s ≡ ok (pos (last x xs))
  last_block-last zero h x xs c f = absurd (omega arith)
  last_block-last (suc k) h x [] c f = rw (c.0, last_block-step k x c.1, c.2)
  last_block-last (suc k) h x (y ∷ ys) c f =
      let rest = last_block-last k (s.next_block x) y ys c.2 (omega arith) in
      rw (c.0, last_block-step k x c.1) (ground (arith, rest, c.2.0))

  pub prev_block-before :
      (k b : ℕ) (h : ℤ) (x : ℕ) (xs : List ℕ)
      → Linked h (x ∷ xs)
      → has b xs ≡ true
      → length xs ≤ k
      → prev_block k (pos b) h s ≡ ok (pos (before b x xs))
  prev_block-before k b h x [] c i f = cc
  prev_block-before zero b h x (y ∷ ys) c i f = absurd (omega arith)
  prev_block-before (suc k) b h x (y ∷ ys) c i f = elim (Bool-cases (y == b)) [
    | inl e ↦ rw (c.0, prev_block-step k b x c.1, c.2.0, e)
    | inr e ↦
        let rest = prev_block-before k b (s.next_block x) y ys c.2 (ground arith) (omega arith) in
        rw (c.0, prev_block-step k b x c.1) (ground (arith, rest, c.2.0))
  ]
