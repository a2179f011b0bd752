-- ===== src/NodeList/Segments.antt =====
-- The lists of src/list.c as the lists of the handles that they stand for.
use sapphire_os.Prelude.{
  ◌==◌, ==→eq, Bool-cases, update, minus_one, ℤ, pos, ℕ, ◌≡◌, refl, sym, ap, inl, inr, Bool, true,
  false, ◌||◌, Option, some, List, [], ◌∷◌, ◌++◌, arith,
}
use mathlib.Core.Path.{subst₂}
use sapphire_os.NodeList.{Node, Lists}

abbrev pub has : ℕ → List ℕ → Bool
has a [] = false
has a (x ∷ xs) = (a == x) || has a xs

-- `h` leads through the nodes `xs` to `end`; `before` is what stands in front, `last` the last node
abbrev pub Segment : (ℕ → Option Node) → ℤ → ℤ → List ℕ → ℤ → ℤ → Type 0
Segment f before h [] last end = (h ≡ end) × (last ≡ before)
Segment f before h (x ∷ xs) last end =
    (h ≡ pos x)
    × (node : Node) × (f x ≡ some node)
    × (node.prev ≡ before)
    × Segment f (pos x) node.next xs last end

abbrev pub Nodup : List ℕ → Type 0
Nodup [] = Unit
Nodup (x ∷ xs) = (has x xs ≡ false) × Nodup xs

-- the list stands for the handles `xs`
pub record IsList (s : Lists) (xs : List ℕ) : Type 0 where
  pub linked : Segment s.nodes minus_one s.head xs s.tail minus_one
  pub nodup : Nodup xs

-- a write to a node that is not on the list leaves the list alone
pub Segment-update :
    (f : ℕ → Option Node) (a : ℕ) (entry : Option Node) (before h : ℤ) (xs : List ℕ) (last end : ℤ)
    → has a xs ≡ false
    → Segment f before h xs last end
    → Segment (update f a entry) before h xs last end
Segment-update f a entry before h [] last end out c = c
Segment-update f a entry before h (x ∷ xs) last end out (at, own, e, p, rest) =
    let same : update f a entry x ≡ some own = ground arith in
    (at, own, same, p, Segment-update f a entry (pos x) own.next xs last end (ground arith) rest)

-- two parts of a list, and the handle that stands between them
pub Segment-split :
    (f : ℕ → Option Node) (before h : ℤ) (xs ys : List ℕ) (last end : ℤ)
    → Segment f before h (xs ++ ys) last end
    → (middle link : ℤ) × Segment f before h xs middle link × Segment f middle link ys last end
Segment-split f before h [] ys last end c = (before, h, (refl, refl), c)
Segment-split f before h (x ∷ xs) ys last end (at, own, e, p, rest) =
    let (middle, link, one, two) = Segment-split f (pos x) own.next xs ys last end rest in
    (middle, link, (at, own, e, p, one), two)

pub Segment-join :
    (f : ℕ → Option Node) (before h : ℤ) (xs ys : List ℕ) (middle link last end : ℤ)
    → Segment f before h xs middle link
    → Segment f middle link ys last end
    → Segment f before h (xs ++ ys) last end
Segment-join f before h [] ys middle link last end one two =
    subst₂ (λ p q. Segment f p q ys last end) one.1 (sym one.0) two
Segment-join f before h (x ∷ xs) ys middle link last end (at, own, e, p, rest) two =
    (at, own, e, p, Segment-join f (pos x) own.next xs ys middle link last end rest two)

-- the last node of a list, and the list after its link was changed
pub record Last (f : ℕ → Option Node) (before h : ℤ) (xs : List ℕ) (last end : ℤ) : Type 0 where
  pub number : ℕ
  pub node : Node
  pub there : f number ≡ some node
  pub is_last : last ≡ pos number
  pub on : has number xs ≡ true
  pub leads : node.next ≡ end
  pub relinked :
      (link : ℤ)
      → Segment (update f number (some (record node { next = link }))) before h xs last link

pub Segment-Last :
    (f : ℕ → Option Node) (before h : ℤ) (x : ℕ) (xs : List ℕ) (last end : ℤ)
    → Nodup (x ∷ xs)
    → Segment f before h (x ∷ xs) last end
    → Last f before h (x ∷ xs) last end
Segment-Last f before h x [] last end d (at, own, e, p, (stop, is)) = record {
  number = x;
  node = own;
  there = e;
  is_last = is;
  on = ground arith;
  leads = stop;
  relinked = λ link. (at, record own { next = link }, ground arith, p, (refl, is));
}
Segment-Last f before h x (y ∷ ys) last end d (at, own, e, p, rest) =
    let l = Segment-Last f (pos x) own.next y ys last end d.1 rest in
    record {
      number = l.number;
      node = l.node;
      there = l.there;
      is_last = l.is_last;
      on = ground (arith, l.on);
      leads = l.leads;
      relinked = λ link.
          let other : (l.number == x) ≡ false = apart l.number x (y ∷ ys) l.on d.0 in
          (at, own, rw other e, p, l.relinked link);
    }
  where
    apart : (a b : ℕ) (zs : List ℕ) → has a zs ≡ true → has b zs ≡ false → (a == b) ≡ false
    apart a b zs i o = elim (Bool-cases (a == b)) [
      | inl k ↦ absurd (cc (i, o, ap (λ c. has c zs) (==→eq a b k)))
      | inr k ↦ k
    ]

pub Nodup-snoc : (x : ℕ) (xs : List ℕ) → Nodup xs → has x xs ≡ false → Nodup (xs ++ x ∷ [])
Nodup-snoc x [] d o = (refl, tt)
Nodup-snoc x (y ∷ ys) d o = (has-snoc y x ys d.0 (ground arith), Nodup-snoc x ys d.1 (ground arith))
  where
    has-snoc :
        (a b : ℕ) (zs : List ℕ) → has a zs ≡ false → (a == b) ≡ false → has a (zs ++ b ∷ []) ≡ false
    has-snoc a b [] h k = ground arith
    has-snoc a b (z ∷ zs) h k = ground (arith, has-snoc a b zs)
