-- ===== src/NodeList/Insert.antt =====
-- The insertions of src/list.c at both ends of a list.
use sapphire_os.Prelude.{
  ◌==◌, eq→==, ==→eq, Bool-cases, update, List-cases, minus_one, Returns, pos, returns, ℕ, ◌≡◌,
  refl, sym, ap, inl, inr, true, false, Option, some, List, [], ◌∷◌, ◌++◌, arith,
}
use mathlib.Core.Path.{subst, fun_ext}
use sapphire_os.NodeList.{Node, Lists, node_at, set_node, insert_after, insert_tail, insert_head}
use sapphire_os.NodeList.Segments.{
  has, Segment, Nodup, IsList, Segment-update, Segment-join, Segment-Last, Nodup-snoc,
}

update-under :
    (f : ℕ → Option Node) (x y : ℕ) (a b : Option Node)
    → (x == y) ≡ false
    → update (update f y a) x b y ≡ a
update-under f x y a b e = rw (e, eq→== y y refl)

update-swap :
    (f : ℕ → Option Node) (x p : ℕ) (a b : Option Node)
    → (x == p) ≡ false
    → update (update f p b) x a ≡ update (update f x a) p b
update-swap f x p a b e = fun_ext (λ j. at j)
  where
    at : (j : ℕ) → update (update f p b) x a j ≡ update (update f x a) p b j
    at j = elim (Bool-cases (x == j)) [
      | inl k ↦ let other : (p == j) ≡ false = ground arith in rw (k, other)
      | inr k ↦ rw k
    ]

has-apart : (a b : ℕ) (xs : List ℕ) → has a xs ≡ false → has b xs ≡ true → (a == b) ≡ false
has-apart a b xs o i = elim (Bool-cases (a == b)) [
  | inl k ↦ absurd (cc (i, o, ap (λ c. has c xs) (==→eq a b k)))
  | inr k ↦ k
]

-- the node `x` is allocated and not on the list
module _ {s : Lists} {xs : List ℕ} (v : IsList s xs) (x : ℕ) (own : Node) (e : s.nodes x ≡ some own)
    (out : has x xs ≡ false) where
  insert_head-nil : xs ≡ [] → Returns (λ s'. IsList s' (x ∷ [])) (insert_head (pos x) s)
  unfolding insert_head node_at set_node
  insert_head-nil n =
      let c : Segment s.nodes minus_one s.head [] s.tail minus_one = rw n at v.linked in
      rw (e, c.0)
        (returns (record {
          linked = (
            refl,
            record own { prev = minus_one; next = minus_one },
            ground arith,
            refl,
            (refl, refl),
          );
          nodup = (refl, tt);
        }))

  insert_head-cons :
      (y : ℕ) (ys : List ℕ)
      → xs ≡ y ∷ ys
      → Returns (λ s'. IsList s' (x ∷ y ∷ ys)) (insert_head (pos x) s)
  unfolding insert_head node_at set_node
  insert_head-cons y ys n =
      let (at, first, f, p, rest) : Segment s.nodes minus_one s.head (y ∷ ys) s.tail minus_one =
        rw n at v.linked in
      let d : Nodup (y ∷ ys) = rw n at v.nodup in
      let o : has x (y ∷ ys) ≡ false = rw n at out in
      let apart : (y == x) ≡ false = ground arith in
      let apart' : (x == y) ≡ false = ground arith in
      rw (e, at, f, apart, e)
        (returns (record {
          linked = (
            refl,
            record own { prev = minus_one; next = pos y },
            ground arith,
            refl,
            (
              refl,
              record first { prev = pos x },
              update-under s.nodes x y _ _ apart',
              refl,
              Segment-update _ x _ (pos y) first.next ys s.tail minus_one (ground arith)
                  (Segment-update s.nodes y _ (pos y) first.next ys s.tail minus_one d.0 rest),
            ),
          );
          nodup = (o, d);
        }))

  -- `list_v_insert_head` puts an allocated node that is not on the list in front of the others,
  -- and the links in both directions agree.
  pub insert_head-IsList : Returns (λ s'. IsList s' (x ∷ xs)) (insert_head (pos x) s)
  insert_head-IsList = elim (List-cases xs) [
    | inl n ↦ rw n (insert_head-nil n)
    | inr (y, ys, n) ↦ rw n (insert_head-cons y ys n)
  ]

  insert_tail-nil : xs ≡ [] → Returns (λ s'. IsList s' (x ∷ [])) (insert_tail (pos x) s)
  unfolding insert_tail node_at set_node
  insert_tail-nil n =
      let c : Segment s.nodes minus_one s.head [] s.tail minus_one = rw n at v.linked in
      rw (e, c.1)
        (returns (record {
          linked = (
            refl,
            record own { prev = minus_one; next = minus_one },
            ground arith,
            refl,
            (refl, refl),
          );
          nodup = (refl, tt);
        }))

  insert_tail-cons :
      (y : ℕ) (ys : List ℕ)
      → xs ≡ y ∷ ys
      → Returns (λ s'. IsList s' ((y ∷ ys) ++ x ∷ [])) (insert_tail (pos x) s)
  unfolding insert_tail insert_after node_at set_node
  insert_tail-cons y ys n =
      let c : Segment s.nodes minus_one s.head (y ∷ ys) s.tail minus_one = rw n at v.linked in
      let d : Nodup (y ∷ ys) = rw n at v.nodup in
      let o : has x (y ∷ ys) ≡ false = rw n at out in
      let l = Segment-Last s.nodes minus_one s.head y ys s.tail minus_one d c in
      let p = l.number in
      let apart : (x == p) ≡ false = has-apart x p (y ∷ ys) o l.on in
      let own' : Node = record own { prev = pos p; next = minus_one } in
      let last' : Node = record (l.node) { next = pos x } in
      let same : update (update s.nodes p (some last')) x (some own')
          ≡ update (update s.nodes x (some own')) p (some last') =
        update-swap s.nodes x p (some own') (some last') apart in
      let front : Segment (update (update s.nodes p (some last')) x (some own')) minus_one s.head
          (y ∷ ys) s.tail (pos x) =
        Segment-update (update s.nodes p (some last')) x (some own') minus_one s.head (y ∷ ys)
          s.tail (pos x) o (l.relinked (pos x)) in
      let here : update (update s.nodes p (some last')) x (some own') x ≡ some own' =
        ground arith in
      let whole : Segment (update (update s.nodes p (some last')) x (some own')) minus_one s.head
          ((y ∷ ys) ++ x ∷ []) (pos x) minus_one =
        Segment-join _ minus_one s.head (y ∷ ys) (x ∷ []) s.tail (pos x) (pos x) minus_one front
          (refl, own', here, sym l.is_last, (refl, refl)) in
      rw (e, l.is_last, l.there, apart, l.leads, apart, l.there)
        (returns (record {
          linked =
              subst (λ f. Segment f minus_one s.head ((y ∷ ys) ++ x ∷ []) (pos x) minus_one) same
                whole;
          nodup = Nodup-snoc x (y ∷ ys) d o;
        }))

  -- `list_v_insert_tail` puts an allocated node that is not on the list behind the others, and
  -- the links in both directions agree.
  pub insert_tail-IsList : Returns (λ s'. IsList s' (xs ++ x ∷ [])) (insert_tail (pos x) s)
  insert_tail-IsList = elim (List-cases xs) [
    | inl n ↦ rw n (insert_tail-nil n)
    | inr (y, ys, n) ↦ rw n (insert_tail-cons y ys n)
  ]
