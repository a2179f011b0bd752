-- ===== src/NodeList/Walks.antt =====
-- The loops of src/list.c along a list.
use sapphire_os.Prelude.{
  length, minus_one, ℤ, add8, pos, ok, ℕ, zero, suc, ◌+◌, ◌%◌, ◌^◌, ◌<◌, ◌≡◌, ap, ◌∙◌, some, List,
  [], ◌∷◌, arith,
}
use sapphire_os.NodeList.{
  Node, Lists, node_at, next_node, count_nodes, list_count, seek, node_index,
}
use sapphire_os.NodeList.Segments.{Segment, IsList}

-- what a list has at an index, -1 behind its end
abbrev pub nth : ℕ → List ℕ → ℤ
nth i [] = minus_one
nth zero (x ∷ xs) = pos x
nth (suc i) (x ∷ xs) = nth i xs

module _ (s : Lists) where
  next_node-eq : (x : ℕ) (own : Node) → s.nodes x ≡ some own → next_node (pos x) s ≡ ok own.next
  unfolding next_node node_at
  next_node-eq x own e = rw e

  count_nodes-length :
      (k count : ℕ) (before h : ℤ) (xs : List ℕ) (last : ℤ)
      → Segment s.nodes before h xs last minus_one
      → length xs < k
      → count < 2 ^ 8
      → count_nodes k h count s ≡ ok ((count + length xs) % 2 ^ 8)
  unfolding count_nodes
  count_nodes-length zero count before h xs last c f l = absurd (omega arith)
  count_nodes-length (suc k) count before h [] last c f l = rw c.0 (ap (λ n. ok n) (omega arith))
  count_nodes-length (suc k) count before h (x ∷ xs) last (at, own, e, p, rest) f l =
      rw (at, next_node-eq x own e)
        (count_nodes-length k (add8 count 1) (pos x) own.next xs last rest (omega arith)
            (omega arith)
          ∙ ap (λ n. ok n) (omega arith))

  seek-nth :
      (i : ℕ) (before h : ℤ) (xs : List ℕ) (last : ℤ)
      → Segment s.nodes before h xs last minus_one
      → seek i h s ≡ ok (nth i xs)
  unfolding seek
  seek-nth zero before h [] last c = ap (λ v. ok v) c.0
  seek-nth zero before h (x ∷ xs) last c = ap (λ v. ok v) c.0
  seek-nth (suc i) before h [] last c = rw c.0
  seek-nth (suc i) before h (x ∷ xs) last (at, own, e, p, rest) =
      rw (at, next_node-eq x own e) (seek-nth i (pos x) own.next xs last rest)

module _ {s : Lists} {xs : List ℕ} (v : IsList s xs) where
  -- With more rounds than there are nodes, `list_u8_count` ends with the number of nodes modulo 256.
  pub list_count-length :
      (rounds : ℕ) → length xs < rounds → list_count rounds s ≡ ok (length xs % 2 ^ 8)
  unfolding list_count
  list_count-length rounds l =
      count_nodes-length s rounds 0 minus_one s.head xs s.tail v.linked l (omega arith)
      ∙ ap (λ n. ok (n % 2 ^ 8)) (omega arith)

  -- `list_ln_index` is the node at the index, and -1 behind the end of the list.
  pub node_index-nth : (i : ℕ) → node_index i s ≡ ok (nth i xs)
  unfolding node_index
  node_index-nth i = seek-nth s i minus_one s.head xs s.tail v.linked
