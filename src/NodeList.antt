-- ===== src/NodeList.antt =====
-- src/list.c: doubly linked lists of memory objects.
-- The nodes are the objects of the heap by their handles; of the heap only that is used that a handle
-- leads to one object. `mem2_vp_get_ptr` of a handle that is not in use fails an ASSERT.
pub mod Segments
pub mod Walks
pub mod Insert
pub mod Remove
mod Tests
use sapphire_os.Prelude.{
  ltb, leb, ◌==◌, if◌then◌else◌, ltb→lt, lt→ltb, le→not_ltb, eq→==, ==→eq, Bool-cases, Option-cases,
  update, length, get_elem?, length-append, List-cases, is_neg, inc, dec, minus_one, ℤ, add8, add16,
  sub16, add32, sub32, mul32, ◌>>=◌, ◌>>◌, assert, within, >>=-eq-ok, Returns-bind, Returns-mono,
  Returns-ok, Run, Returns, pos, negsuc, ok, assert_failed, out_of_bounds, out_of_fuel, returns, ℕ,
  zero, suc, ◌+◌, ◌-◌, ◌*◌, ◌/◌, ◌%◌, ◌^◌, ◌≤◌, ◌<◌, ◌≡◌, refl, sym, ap, ap₂, ◌∙◌, ◌≢◌, ◌↔◌, ◌⊎◌,
  inl, inr, Bool, true, false, not, ◌&&◌, ◌||◌, Option, none, some, List, [], ◌∷◌, ◌++◌, arith,
}

-- `list_node_state_t`, and the size of the data in it
pub record Node : Type 0 where
  pub prev : ℤ
  pub next : ℤ
  pub node_size : ℕ

-- the heap, and a `list_t` in it
pub record Lists : Type 0 where
  pub nodes : ℕ → Option Node
  pub head : ℤ
  pub tail : ℤ

abbrev pub in_use : Option Node → Run Node
in_use none = assert_failed
in_use (some node) = ok node

-- `mem2_vp_get_ptr`
unfoldable pub node_at : ℤ → Lists → Run Node
node_at (negsuc i) s = assert_failed
node_at (pos h) s = in_use (s.nodes h)

-- an assignment to the fields of a node
unfoldable pub set_node : ℤ → Node → Lists → Run Lists
set_node (negsuc i) node s = assert_failed
set_node (pos h) node s = ok (record s { nodes = update s.nodes h (some node) })

-- `list_v_init`
unfoldable pub init : Lists → Lists
init s = record s { head = minus_one; tail = minus_one }

-- `list_ln_next`
unfoldable pub next_node : ℤ → Lists → Run ℤ
next_node node s = do state ← node_at node s; ok state.next

-- `list_ln_prev`
unfoldable pub prev_node : ℤ → Lists → Run ℤ
prev_node node s = do state ← node_at node s; ok state.prev

-- `list_u16_node_size`
unfoldable pub size_of_node : ℤ → Lists → Run ℕ
size_of_node node s = do state ← node_at node s; ok state.node_size

-- `list_b_is_empty`
unfoldable pub is_empty : Lists → Bool
is_empty s = is_neg s.head

-- the loop of `list_u8_count`
unfoldable pub count_nodes : ℕ → ℤ → ℕ → Lists → Run ℕ
count_nodes zero node count s = out_of_fuel
count_nodes (suc k) node count s = elim (is_neg node) [
  | true ↦ ok count
  | false ↦ next_node node s >>= λ next. count_nodes k next (add8 count 1) s
]

-- `list_u8_count`, in at most `rounds` rounds
unfoldable pub list_count : ℕ → Lists → Run ℕ
list_count rounds s = count_nodes rounds s.head 0 s

-- the loop of `list_u16_size`
unfoldable pub sum_sizes : ℕ → ℤ → ℕ → Lists → Run ℕ
sum_sizes zero node size s = out_of_fuel
sum_sizes (suc k) node size s = elim (is_neg node) [
  | true ↦ ok size
  | false ↦ size_of_node node s >>= λ more.
      next_node node s >>= λ next. sum_sizes k next (add16 size more) s
]

-- `list_u16_size`
unfoldable pub data_size : ℕ → Lists → Run ℕ
data_size rounds s = sum_sizes rounds s.head 0 s

-- the loop of `list_ln_index`
unfoldable pub seek : ℕ → ℤ → Lists → Run ℤ
seek zero node s = ok node
seek (suc index) node s = elim (is_neg node) [
  | true ↦ ok node
  | false ↦ next_node node s >>= λ next. seek index next s
]

-- `list_ln_index`
unfoldable pub node_index : ℕ → Lists → Run ℤ
node_index index s = seek index s.head s

-- `list_v_insert_after`
unfoldable pub insert_after : ℤ → ℤ → Lists → Run Lists
insert_after node new_node s = do
  state ← node_at node s
  new_state ← node_at new_node s
  one ← set_node new_node (record new_state { prev = node; next = state.next }) s
  old ← node_at node one
  two ←
      (if is_neg old.next then ok (record one { tail = new_node }) else do
        next_state ← node_at old.next one
        set_node old.next (record next_state { prev = new_node }) one)
  last ← node_at node two
  set_node node (record last { next = new_node }) two

-- `list_v_insert_tail`
unfoldable pub insert_tail : ℤ → Lists → Run Lists
insert_tail node s = do
  state ← node_at node s
  (if is_neg s.tail
      then set_node node (record state { prev = minus_one; next = minus_one })
          (record s { head = node; tail = node })
      else insert_after s.tail node s)

-- `list_v_insert_head`
unfoldable pub insert_head : ℤ → Lists → Run Lists
insert_head node s = do
  state ← node_at node s
  (if is_neg s.head
      then set_node node (record state { prev = minus_one; next = minus_one })
          (record s { head = node; tail = node })
      else do
        head_state ← node_at s.head s
        one ← set_node s.head (record head_state { prev = node }) s
        own ← node_at node one
        two ← set_node node (record own { prev = minus_one; next = one.head }) one
        ok (record two { head = node }))

-- `list_v_remove`
unfoldable pub remove : ℤ → Lists → Run Lists
remove node s = do
  state ← node_at node s
  one ←
      (if is_neg state.prev then ok (record s { head = state.next }) else do
        prev_state ← node_at state.prev s
        set_node state.prev (record prev_state { next = state.next }) s)
  own ← node_at node one
  (if is_neg own.next then ok (record one { tail = own.prev }) else do
    next_state ← node_at own.next one
    set_node own.next (record next_state { prev = own.prev }) one)

-- `list_ln_remove_tail`
unfoldable pub remove_tail : Lists → Run (ℤ × Lists)
remove_tail s = if is_neg s.tail then ok (s.tail, s) else do t ← remove s.tail s; ok (s.tail, t)
