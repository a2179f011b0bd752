-- ===== src/NodeList/Tests.antt =====
-- src/list.c on a list of two nodes, and a third that was just made.
use sapphire_os.Prelude.{
  ◌==◌, if◌then◌else◌, minus_one, ℤ, ◌>>=◌, Returns, pos, ok, ◌≡◌, refl, none, some, [], ◌∷◌,
}
use sapphire_os.NodeList.{Node, Lists, insert_tail, remove, node_at, set_node}
use sapphire_os.NodeList.Segments.{IsList}
use sapphire_os.NodeList.Insert.{insert_tail-IsList}
use sapphire_os.NodeList.Remove.{remove-IsList}

abbrev node : ℤ → ℤ → Node
node prev next = record { prev = prev; next = next; node_size = 8 }

abbrev fresh : Node
fresh = node (pos 9) (pos 9)

-- 4 and 7 are on the list
abbrev two : Lists
two = record {
  nodes = λ h.
      if h == 4
      then some (node minus_one (pos 7))
      else if h == 7
      then some (node (pos 4) minus_one)
      else if h == 5
      then some fresh
      else none;
  head = pos 4;
  tail = pos 7;
}

two-IsList : IsList two (4 ∷ 7 ∷ [])
two-IsList = record {
  linked = (
    refl,
    node minus_one (pos 7),
    refl,
    refl,
    (refl, node (pos 4) minus_one, refl, refl, (refl, refl)),
  );
  nodup = (refl, (refl, tt));
}

abbrev ends : Lists → ℤ × ℤ
ends s = (s.head, s.tail)

remove_first : (remove (pos 4) two >>= λ s. ok (ends s)) ≡ ok (ends (record two { head = pos 7 }))
unfolding remove node_at set_node
remove_first = refl

insert_tail-IsList_example : Returns (λ s'. IsList s' (4 ∷ 7 ∷ 5 ∷ [])) (insert_tail (pos 5) two)
insert_tail-IsList_example = insert_tail-IsList two-IsList 5 fresh refl refl

remove-IsList_example : Returns (λ s'. IsList s' (4 ∷ [])) (remove (pos 7) two)
remove-IsList_example = remove-IsList 7 (4 ∷ []) [] two-IsList
