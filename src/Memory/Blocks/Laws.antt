-- ===== src/Memory/Blocks/Laws.antt =====
-- Facts about block lists that the proofs about src/memory.c share.
use sapphire_os.Prelude.{
  ℕ, ◌+◌, ◌<◌, ◌≤◌, ◌≡◌, refl, false, Option, none, some, List, [], ◌∷◌, ◌++◌, arith, update,
  Bool-cases, inl, inr, ap,
}
use sapphire_os.Memory.{Block}
use sapphire_os.Memory.{block_size, is_dirty}
use sapphire_os.Memory.Blocks.{
  live, find, address, total, used_bytes, dirty_bytes, Tiles, IsGood, AllGood,
}

pub block_size_pos : (b : Block) → 5 ≤ block_size b
unfolding block_size
block_size_pos b = omega arith

pub Tiles-end :
    (f : ℕ → Block) (p : ℕ) (bs : List Block) (q : ℕ) → Tiles f p bs q → q ≡ p + total bs
Tiles-end f p [] q t = omega arith
Tiles-end f p (b ∷ bs) q t = omega (arith, Tiles-end f (p + block_size b) bs q t.1)

pub total-used-dirty : (bs : List Block) → total bs ≡ used_bytes bs + dirty_bytes bs
total-used-dirty [] = refl
total-used-dirty (b ∷ bs) = ground (arith, total-used-dirty bs)

pub Tiles-append :
    (f : ℕ → Block) (p : ℕ) (bs cs : List Block) (q r : ℕ)
    → Tiles f p bs q
    → Tiles f q cs r
    → Tiles f p (bs ++ cs) r
Tiles-append f p [] cs q r t u = rw t u
Tiles-append f p (b ∷ bs) cs q r t u = (t.0, Tiles-append f (p + block_size b) bs cs q r t.1 u)

module _ (f : ℕ → Block) (c : Block) (a : ℕ) where
  pub Tiles-update_above :
      (p : ℕ) (bs : List Block) (q : ℕ) → q ≤ a → Tiles f p bs q → Tiles (update f a c) p bs q
  Tiles-update_above p [] q h t = t
  Tiles-update_above p (b ∷ bs) q h t = (
    ground (arith, block_size_pos b, Tiles-end f (p + block_size b) bs q t.1),
    Tiles-update_above (p + block_size b) bs q h t.1,
  )

  pub Tiles-update_below :
      (p : ℕ) (bs : List Block) (q : ℕ) → a < p → Tiles f p bs q → Tiles (update f a c) p bs q
  Tiles-update_below p [] q h t = t
  Tiles-update_below p (b ∷ bs) q h t =
      (ground arith, Tiles-update_below (p + block_size b) bs q (omega arith) t.1)

abbrev pub or_else : Option ℕ → Option ℕ → Option ℕ
or_else none o = o
or_else (some a) o = some a

pub address-append :
    (p : ℕ) (bs cs : List Block) (h : ℕ)
    → address p (bs ++ cs) h ≡ or_else (address p bs h) (address (p + total bs) cs h)
address-append p [] cs h = ap (λ q. address q cs h) (omega arith)
address-append p (b ∷ bs) cs h = elim (Bool-cases (live b h)) [
  | inl e ↦ rw e
  | inr e ↦
      rw (e, address-append (p + block_size b) bs cs h)
        (ap (λ q. or_else (address (p + block_size b) bs h) (address q cs h)) (omega arith))
]

pub find-append_some :
    (bs cs : List Block) (h : ℕ) (b : Block) → find bs h ≡ some b → find (bs ++ cs) h ≡ some b
find-append_some [] cs h b e = cc
find-append_some (c ∷ bs) cs h b e = ground (arith, find-append_some bs cs h b)

pub find-append_none :
    (bs cs : List Block) (h : ℕ) → find bs h ≡ none → find (bs ++ cs) h ≡ find cs h
find-append_none [] cs h e = refl
find-append_none (c ∷ bs) cs h e = ground (arith, find-append_none bs cs h)

-- a handle has an address exactly if it has a block
pub address-none : (p : ℕ) (bs : List Block) (h : ℕ) → address p bs h ≡ none → find bs h ≡ none
address-none p [] h e = refl
address-none p (b ∷ bs) h e = ground (arith, address-none (p + block_size b) bs h)

pub none-address : (p : ℕ) (bs : List Block) (h : ℕ) → find bs h ≡ none → address p bs h ≡ none
none-address p [] h e = refl
none-address p (b ∷ bs) h e = ground (arith, none-address (p + block_size b) bs h)

-- the block at the address of a handle is the handle's, and lies inside the tiling
pub address-find :
    (f : ℕ → Block) (p : ℕ) (bs : List Block) (h q a : ℕ)
    → Tiles f p bs q
    → address p bs h ≡ some a
    → (find bs h ≡ some (f a)) × (p ≤ a) × (a + block_size (f a) ≤ q)
address-find f p [] h q a t e = cc
address-find f p (b ∷ bs) h q a t e =
    ground (
      arith,
      address-find f (p + block_size b) bs h q a t.1,
      Tiles-end f (p + block_size b) bs q t.1,
    )

pub find-IsGood :
    (bs : List Block) (h : ℕ) (b : Block)
    → AllGood bs
    → find bs h ≡ some b
    → IsGood b × (is_dirty b ≡ false) × (b.handle ≡ h)
find-IsGood [] h b g e = cc
find-IsGood (c ∷ bs) h b g e = ground (arith, find-IsGood bs h b g.1)
