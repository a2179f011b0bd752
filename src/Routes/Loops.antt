-- ===== src/Routes/Loops.antt =====
-- The test for loops of src/routing2.c.
use sapphire_os.Prelude.{
  ◌==◌, ==→eq, Bool-cases, length, get_elem?, ◌>>=◌, Returns-bind, Returns-mono, Returns, returns,
  ℕ, zero, suc, ◌+◌, ◌≤◌, ◌<◌, ◌≡◌, refl, sym, ◌≢◌, inl, inr, true, false, some, List, [], ◌∷◌,
  arith,
}
use sapphire_os.Routes.{Route, Neighbors, has_hop, has_loop, check}

-- no hop of a route comes twice
abbrev pub IsDistinct : ℕ → List ℕ → Type 0
IsDistinct count hops = (i j : ℕ) → i < j → j < count → get_elem? hops i ≢ get_elem? hops j

pub get_elem?-inside :
    (hops : List ℕ) (i : ℕ) → i < length hops → (hop : ℕ) × (get_elem? hops i ≡ some hop)
get_elem?-inside [] i l = absurd (omega arith)
get_elem?-inside (h ∷ hops) zero l = (h, refl)
get_elem?-inside (h ∷ hops) (suc i) l = get_elem?-inside hops i (omega arith)

pub some-injective : (a b : ℕ) → a ≢ b → some a ≢ some b
some-injective a b differs e = differs cc

-- the search ends, and finds nothing only where there is nothing
has_hop-none :
    (k j hop : ℕ) (hops : List ℕ)
    → j + k ≤ length hops
    → Returns
        (λ found. found ≡ false → (i : ℕ) → j ≤ i → i < j + k → get_elem? hops i ≢ some hop)
        (has_hop k j hop hops)
unfolding has_hop
has_hop-none zero j hop hops l = returns (λ e i p q. absurd (omega arith))
has_hop-none (suc k) j hop hops l =
    let (other, is) = get_elem?-inside hops j (omega arith) in
    elim (Bool-cases (hop == other)) [
      | inl same ↦ rw (has_hop, is, ◌>>=◌, same) (returns (λ e. cc))
      | inr differs ↦
          rw (has_hop, is, ◌>>=◌, differs)
            (Returns-mono (has_hop-none k (j + 1) hop hops (omega arith)) λ found later e i p q.
              elim (Bool-cases (j == i)) [
                | inr beyond ↦ later e i (ground arith) (omega arith)
                | inl here ↦
                    let at : j ≡ i = ==→eq j i here in
                    let not_same : other ≢ hop = ground (arith, differs) in
                    rw (← at, is) (some-injective other hop not_same)
              ])
    ]

has_loop-none :
    (k i : ℕ) (hops : List ℕ)
    → i + k ≤ length hops
    → Returns
        (λ found.
          found ≡ false
          → (a b : ℕ) → i ≤ a
          → a < b
          → b < i + k
          → get_elem? hops a ≢ get_elem? hops b)
        (has_loop k i hops)
unfolding has_loop
has_loop-none zero i hops l = returns (λ e a b p q r. absurd (omega arith))
has_loop-none (suc k) i hops l =
    let (hop, is) = get_elem?-inside hops i (omega arith) in
    rw (has_loop, is)
      (Returns-bind (has_hop-none k (i + 1) hop hops (omega arith)) λ found none_here.
        elim (Bool-cases found) [
          | inl there ↦ rw there (returns (λ e. cc))
          | inr absent ↦ rw absent (
              Returns-mono (has_loop-none k (i + 1) hops (omega arith)) λ loop later e a b p q r.
                elim (Bool-cases (i == a)) [
                  | inr beyond ↦ later e a b (ground arith) q (omega arith)
                  | inl here ↦
                      let at : i ≡ a = ==→eq i a here in
                      let other = none_here absent b (omega (arith, at)) (omega (arith, at)) in
                      rw (← at, is) (λ same. other (sym same))
                ])
        ])

-- A route that `route2_i8_check` accepts has no loop, and its next hop is a neighbor.
pub check-IsDistinct :
    (n : Neighbors) (route : Route)
    → route.hop_count ≤ length route.hops
    → 2 ≤ length route.hops
    → Returns
        (λ sound.
          sound ≡ true
          → IsDistinct route.hop_count route.hops
            × ((hop : ℕ) × (get_elem? route.hops 1 ≡ some hop) × (n.is_neighbor hop ≡ true)))
        (check n route)
unfolding check
check-IsDistinct n route l two =
    Returns-bind (has_loop-none route.hop_count 0 route.hops (omega arith)) λ found absent.
      elim (Bool-cases found) [
        | inl loop ↦ rw loop (returns (λ e. cc))
        | inr none_found ↦
            let (hop, is) = get_elem?-inside route.hops 1 (omega arith) in
            rw (none_found, is)
              (returns (λ e.
                (λ i j p q. absent none_found i j (omega arith) p (omega arith), (hop, refl, e))))
      ]
