-- ===== src/NodeList/Remove.antt =====
-- `list_v_remove` of src/list.c takes a node out of a list.
use mathlib.Core.Path.{subst, subst₂}
use sapphire_os.Prelude.{
  ◌==◌, ==→eq, Bool-cases, update, minus_one, ℤ, Returns, pos, returns, ℕ, ◌≡◌, refl, sym, ap, ◌∙◌,
  inl, inr, true, false, Option, some, List, [], ◌∷◌, ◌++◌, arith,
}
use sapphire_os.NodeList.{Node, Lists, node_at, set_node, remove}
use sapphire_os.NodeList.Segments.{
  has, Segment, Nodup, IsList, Segment-update, Segment-split, Segment-join, Segment-Last,
}

has-erased : (a x : ℕ) (ys zs : List ℕ) → has a (ys ++ x ∷ zs) ≡ false → has a (ys ++ zs) ≡ false
has-erased a x [] zs h = ground arith
has-erased a x (y ∷ ys) zs h = ground (arith, has-erased a x ys zs)

Nodup-erased : (x : ℕ) (ys zs : List ℕ) → Nodup (ys ++ x ∷ zs) → Nodup (ys ++ zs)
Nodup-erased x [] zs d = d.1
Nodup-erased x (y ∷ ys) zs d = (has-erased y x ys zs d.0, Nodup-erased x ys zs d.1)

has-front : (a : ℕ) (ys zs : List ℕ) → has a (ys ++ zs) ≡ false → has a ys ≡ false
has-front a [] zs h = refl
has-front a (y ∷ ys) zs h = ground (arith, has-front a ys zs)

has-back : (a : ℕ) (ys zs : List ℕ) → has a (ys ++ zs) ≡ false → has a zs ≡ false
has-back a [] zs h = h
has-back a (y ∷ ys) zs h = has-back a ys zs (ground arith)

Nodup-front : (ys zs : List ℕ) → Nodup (ys ++ zs) → Nodup ys
Nodup-front [] zs d = tt
Nodup-front (y ∷ ys) zs d = (has-front y ys zs d.0, Nodup-front ys zs d.1)

Nodup-back : (ys zs : List ℕ) → Nodup (ys ++ zs) → Nodup zs
Nodup-back [] zs d = d
Nodup-back (y ∷ ys) zs d = Nodup-back ys zs d.1

-- a node of the first part is not on the second
front-back : (a : ℕ) (ys zs : List ℕ) → Nodup (ys ++ zs) → has a ys ≡ true → has a zs ≡ false
front-back a [] zs d h = absurd (cc h)
front-back a (y ∷ ys) zs d h = elim (Bool-cases (a == y)) [
  | inl k ↦ ap (λ c. has c zs) (==→eq a y k) ∙ has-back y ys zs d.0
  | inr k ↦ front-back a ys zs d.1 (ground arith)
]

back-front : (a : ℕ) (ys zs : List ℕ) → Nodup (ys ++ zs) → has a zs ≡ true → has a ys ≡ false
back-front a ys zs d h = elim (Bool-cases (has a ys)) [
  | inl k ↦ absurd (cc (front-back a ys zs d k, h))
  | inr k ↦ k
]

-- the first node of a list, led back to another
Segment-first :
    (f : ℕ → Option Node) (before h : ℤ) (z : ℕ) (zs : List ℕ) (last end : ℤ) (back : ℤ)
    → Nodup (z ∷ zs)
    → (c : Segment f before h (z ∷ zs) last end)
    → Segment (update f z (some (record (c.1) { prev = back }))) back h (z ∷ zs) last end
Segment-first f before h z zs last end back d (at, own, e, p, rest) = (
  at,
  record own { prev = back },
  ground arith,
  refl,
  Segment-update f z _ (pos z) own.next zs last end d.0 rest,
)

has-apart : (a b : ℕ) (xs : List ℕ) → has a xs ≡ true → has b xs ≡ false → (a == b) ≡ false
has-apart a b xs i o = elim (Bool-cases (a == b)) [
  | inl k ↦ absurd (cc (i, o, ap (λ c. has c xs) (==→eq a b k)))
  | inr k ↦ k
]

module _ (s : Lists) (x : ℕ) (own : Node) (e : s.nodes x ≡ some own) where
  remove-only :
      own.prev ≡ minus_one → own.next ≡ minus_one → Returns (λ s'. IsList s' []) (remove (pos x) s)
  unfolding remove node_at
  remove-only p n = rw (e, p, e, n, p) (returns (record { linked = (refl, refl); nodup = tt }))

  remove-first :
      (z : ℕ) (zs : List ℕ)
      → own.prev ≡ minus_one
      → Segment s.nodes (pos x) own.next (z ∷ zs) s.tail minus_one
      → Nodup (z ∷ zs)
      → Returns (λ s'. IsList s' (z ∷ zs)) (remove (pos x) s)
  unfolding remove node_at set_node
  remove-first z zs p c d =
      let first = Segment-first s.nodes (pos x) own.next z zs s.tail minus_one minus_one d c in
      rw (e, p, e, c.0, c.2, p)
        (returns (record {
          linked =
              subst
                (λ h.
                  Segment (update s.nodes z (some (record (c.1) { prev = minus_one }))) minus_one h
                    (z ∷ zs) s.tail minus_one)
                c.0 first;
          nodup = d;
        }))

  module _ (y : ℕ) (ys : List ℕ) (middle : ℤ)
      (c : Segment s.nodes minus_one s.head (y ∷ ys) middle (pos x)) (p : own.prev ≡ middle) where
    remove-last :
        own.next ≡ minus_one
        → Nodup ((y ∷ ys) ++ x ∷ [])
        → Returns (λ s'. IsList s' ((y ∷ ys) ++ [])) (remove (pos x) s)
    unfolding remove node_at set_node
    remove-last n d =
        let l =
          Segment-Last s.nodes minus_one s.head y ys middle (pos x)
            (Nodup-front (y ∷ ys) (x ∷ []) d) c in
        let q = l.number in
        let at : own.prev ≡ pos q = p ∙ l.is_last in
        let on : has x (y ∷ ys) ≡ false = back-front x (y ∷ ys) (x ∷ []) d (ground arith) in
        let apart : (q == x) ≡ false = has-apart q x (y ∷ ys) l.on on in
        let whole =
          Segment-join _ minus_one s.head (y ∷ ys) [] middle minus_one (pos q) minus_one
            (l.relinked minus_one) (refl, sym l.is_last) in
        rw (e, at, l.there, apart, e, n, at)
          (returns (record { linked = whole; nodup = Nodup-erased x (y ∷ ys) [] d }))

    remove-middle :
        (z : ℕ) (zs : List ℕ)
        → Segment s.nodes (pos x) own.next (z ∷ zs) s.tail minus_one
        → Nodup ((y ∷ ys) ++ x ∷ z ∷ zs)
        → Returns (λ s'. IsList s' ((y ∷ ys) ++ z ∷ zs)) (remove (pos x) s)
    unfolding remove node_at set_node
    remove-middle z zs r d =
        let l =
          Segment-Last s.nodes minus_one s.head y ys middle (pos x)
            (Nodup-front (y ∷ ys) (x ∷ z ∷ zs) d) c in
        let q = l.number in
        let at : own.prev ≡ pos q = p ∙ l.is_last in
        let d' : Nodup ((y ∷ ys) ++ z ∷ zs) = Nodup-erased x (y ∷ ys) (z ∷ zs) d in
        let on : has x (y ∷ ys) ≡ false = back-front x (y ∷ ys) (x ∷ z ∷ zs) d (ground arith) in
        let apart : (q == x) ≡ false = has-apart q x (y ∷ ys) l.on on in
        let out : has q (z ∷ zs) ≡ false = front-back q (y ∷ ys) (z ∷ zs) d' l.on in
        let out_z : has z (y ∷ ys) ≡ false = back-front z (y ∷ ys) (z ∷ zs) d' (ground arith) in
        let apart_z : (q == z) ≡ false = has-apart q z (y ∷ ys) l.on out_z in
        let there : update s.nodes q (some (record (l.node) { next = pos z })) z ≡ some (r.1) =
          rw apart_z r.2 in
        let one = some (record (l.node) { next = pos z }) in
        let front =
          Segment-update (update s.nodes q one) z (some (record (r.1) { prev = pos q })) minus_one
            s.head (y ∷ ys) middle (pos z) out_z (l.relinked (pos z)) in
        let back =
          Segment-first (update s.nodes q one) (pos x) own.next z zs s.tail minus_one (pos q)
            (Nodup-back (y ∷ ys) (z ∷ zs) d')
            (
              r.0,
              r.1,
              there,
              r.3,
              Segment-update s.nodes q one (pos z) (r.1).next zs s.tail minus_one
                  (ground (arith, out)) r.4,
            ) in
        let back' =
          subst₂
            (λ m h.
              Segment (update (update s.nodes q one) z (some (record (r.1) { prev = pos q }))) m h
                (z ∷ zs) s.tail minus_one)
            (sym l.is_last) r.0 back in
        let whole =
          Segment-join _ minus_one s.head (y ∷ ys) (z ∷ zs) middle (pos z) s.tail minus_one front
            back' in
        rw (e, at, l.there, apart, e, r.0, apart_z, r.2, at)
          (returns (record { linked = whole; nodup = d' }))

-- `list_v_remove` takes a node of the list out of it: the others keep their order, and the links in both
-- directions agree.
pub remove-IsList :
    {s : Lists} (x : ℕ) (ys zs : List ℕ)
    → IsList s (ys ++ x ∷ zs)
    → Returns (λ s'. IsList s' (ys ++ zs)) (remove (pos x) s)
remove-IsList {s} x ys zs v =
    let (middle, link, front, (at, own, e, p, rest)) =
      Segment-split s.nodes minus_one s.head ys (x ∷ zs) s.tail minus_one v.linked in
    let front' : Segment s.nodes minus_one s.head ys middle (pos x) =
      subst (λ l. Segment s.nodes minus_one s.head ys middle l) at front in
    removed s x own e ys zs middle front' p rest v.nodup
  where
    removed :
        (s : Lists) (x : ℕ) (own : Node)
        → s.nodes x ≡ some own
        → (ys zs : List ℕ) (middle : ℤ) → Segment s.nodes minus_one s.head ys middle (pos x)
        → own.prev ≡ middle
        → Segment s.nodes (pos x) own.next zs s.tail minus_one
        → Nodup (ys ++ x ∷ zs)
        → Returns (λ s'. IsList s' (ys ++ zs)) (remove (pos x) s)
    removed s x own e [] [] middle c p r d = remove-only s x own e (p ∙ c.1) r.0
    removed s x own e [] (z ∷ zs) middle c p r d = remove-first s x own e z zs (p ∙ c.1) r d.1
    removed s x own e (y ∷ ys) [] middle c p r d = remove-last s x own e y ys middle c p r.0 d
    removed s x own e (y ∷ ys) (z ∷ zs) middle c p r d =
        remove-middle s x own e y ys middle c p z zs r d
