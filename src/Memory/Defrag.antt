-- ===== src/Memory/Defrag.antt =====
-- The defragmenter of src/memory.c as a whole: it keeps every block in use, packs them at the start of
-- the heap, and makes the rest free.
use sapphire_os.Prelude.{
  ltb, ◌==◌, if◌then◌else◌, ltb→lt, lt→ltb, Bool-cases, Option-cases, add16, Returns-bind,
  Returns-mono, Returns, returns, ℕ, zero, suc, ◌+◌, ◌≤◌, ◌<◌, ◌≡◌, refl, sym, ap, ◌∙◌, ◌⊎◌, inl,
  inr, true, false, not, ◌&&◌, some, List, [], ◌∷◌, ◌++◌, arith,
}
use mathlib.Core.List.{append_assoc}
use sapphire_os.System.{Kernel, stats_increment}
use sapphire_os.Memory.{
  defrag_threshold, Block, Memory, max_handles, heap_size, canary_value, block_size, is_dirty,
  check_canaries,
}
use sapphire_os.Memory.Collect.{Memcpy, collect, find_dirty, defrag, max_stack}
use sapphire_os.Memory.Blocks.{find, address, total, live_blocks, IsValid}
use sapphire_os.Memory.Blocks.Laws.{
  Tiles-end, total-used-dirty, block_size_pos, address-find, find-IsGood,
}
use sapphire_os.Memory.Blocks.Append.{space_bounds}
use sapphire_os.Memory.Blocks.Live.{
  find-live_blocks, Unique-live_blocks, AllGood-live_blocks, sums-live_blocks,
}
use sapphire_os.Memory.Slide.{CopiesUp, Sliding, Slid, Sliding-keep, slide-Slid}

-- where the search for the first dirty block ends
abbrev Found : Memory → List Block → ℕ → Type 0
Found m all p =
    (done : List Block) × (rest : List Block) × Sliding m done rest p p
    × (done ++ live_blocks rest ≡ all)
    × (total rest ≤ m.free_space_ptr)

find_dirty-Found :
    (k : ℕ) (m : Memory) (all done rest : List Block) (p : ℕ)
    → Sliding m done rest p p
    → done ++ live_blocks rest ≡ all
    → total rest < k
    → Returns (Found m all) (find_dirty k m p)
unfolding find_dirty
find_dirty-Found zero m all done rest p s plan f = absurd (omega arith)
find_dirty-Found (suc k) m all done [] p s plan f =
    let end : (not (is_dirty (m.block p)) && ltb p m.free_space_ptr) ≡ false =
      ground (arith, s.tail) in
    rw (end, find_dirty) (returns (done, [], s, plan, omega arith))
find_dirty-Found (suc k) m all done (b ∷ bs) p s plan f =
    let fits = Tiles-end m.block p (b ∷ bs) m.free_space_ptr s.tail in
    elim (Bool-cases (is_dirty b)) [
      | inl d ↦
          let end : (not (is_dirty (m.block p)) && ltb p m.free_space_ptr) ≡ false =
            ground (arith, s.tail) in
          rw (end, find_dirty) (returns (done, b ∷ bs, s, plan, omega (arith, fits)))
      | inr c ↦
          let more : (not (is_dirty (m.block p)) && ltb p m.free_space_ptr) ≡ true =
            ground (arith, s.tail, fits, block_size_pos b) in
          rw (more, find_dirty)
            (rw (ap block_size s.tail.0) (
              find_dirty-Found k m all (done ++ b ∷ []) bs (p + block_size b) (Sliding-keep s c)
                (append_assoc done (b ∷ []) (live_blocks bs) ∙ (rw c at plan))
                (omega (arith, block_size_pos b))))
    ]

check_canaries-Returns :
    (n i : ℕ) (m : Memory)
    → ((h p : ℕ) → h < i + n → m.handles h ≡ some p → (m.block p).canary ≡ canary_value)
    → Returns (λ _. Unit) (check_canaries n i m)
unfolding check_canaries
check_canaries-Returns zero i m good = returns tt
check_canaries-Returns (suc n) i m good =
    let rest = check_canaries-Returns n (i + 1) m λ h p l. good h p (omega arith) in
    elim (Option-cases (m.handles i)) [
      | inl e ↦ rw (e, check_canaries) rest
      | inr (p, e) ↦
          let whole : ((m.block p).canary == canary_value) ≡ true = ground (arith, good i p) in
          rw (e, check_canaries) (rw whole rest)
    ]

-- in a valid memory every canary is in place
pub IsValid-canaries :
    {m : Memory} {bs : List Block}
    → IsValid m bs
    → (h p : ℕ) → h < max_handles
    → m.handles h ≡ some p
    → (m.block p).canary ≡ canary_value
IsValid-canaries {m} {bs} v h p l e =
    let at : address 0 bs h ≡ some p = sym (v.table h l) ∙ e in
    let (f, _, _) = address-find m.block 0 bs h m.free_space_ptr p v.tiles at in
    (find-IsGood bs h (m.block p) v.good f).0.canary

-- the memory that `defrag` leaves
abbrev swept : ℕ → Kernel → ℕ → Memory → Memory
swept stack k end m = record m {
  free_space_ptr = end;
  free_space = add16 m.free_space m.dirty_space;
  dirty_space = 0;
  stack_usage = stack;
  kernel = k;
}

swept-IsValid :
    {m : Memory} {bs : List Block} {out : Memory × ℕ} (stack : ℕ) (k : Kernel)
    → IsValid m bs
    → Slid m (live_blocks bs) out
    → IsValid (swept stack k out.1 out.0) (live_blocks bs)
swept-IsValid {m} {bs} {out} stack k v s =
    let sums = sums-live_blocks bs in
    let end = Tiles-end out.0.block 0 (live_blocks bs) out.1 s.packed in
    record {
      tiles = s.packed;
      table = s.table;
      unique = Unique-live_blocks bs v.unique;
      good = AllGood-live_blocks bs v.good;
      used = ap (λ (r : Memory). r.used_space) s.same ∙ omega (arith, sums, v.used);
      dirty = omega (arith, sums);
      contents = ap (λ (r : Memory). r.data_space) s.same ∙ omega (arith, sums, v.contents);
      count = ap (λ (r : Memory). r.handles_used) s.same ∙ omega (arith, sums, v.count);
      whole = omega (
        arith,
        end,
        total-used-dirty (live_blocks bs),
        sums,
        space_bounds v,
        ap (λ (r : Memory). r.free_space) s.same,
        ap (λ (r : Memory). r.dirty_space) s.same,
      );
    }

-- the blocks in use of `bs` and nothing else, with all the rest of the heap free
abbrev pub Packed : List Block → Memory → Type 0
Packed bs m =
    IsValid m (live_blocks bs)
    × ((h : ℕ) → find (live_blocks bs) h ≡ find bs h)
    × (m.free_space + m.used_space ≡ heap_size)

swept-Packed :
    {m : Memory} {bs : List Block} {out : Memory × ℕ} (stack : ℕ) (k : Kernel)
    → IsValid m bs
    → Slid m (live_blocks bs) out
    → Packed bs (swept stack k out.1 out.0)
swept-Packed {bs} {out} stack k v s =
    let valid = swept-IsValid stack k v s in
    (
      valid,
      find-live_blocks bs,
      omega (
        arith,
        valid.whole,
        valid.used,
        sums-live_blocks bs,
        Tiles-end out.0.block 0 (live_blocks bs) out.1 s.packed,
        total-used-dirty (live_blocks bs),
      ),
    )

pub defrag-live_blocks :
    {m : Memory} {bs : List Block} (memcpy : Memcpy) (stack : ℕ)
    → CopiesUp memcpy
    → IsValid m bs
    → stack < max_stack
    → Returns (Packed bs) (defrag memcpy stack m)
unfolding defrag stats_increment
defrag-live_blocks {m} {bs} memcpy stack up v l =
    let start : Sliding m [] bs 0 0 = record {
      packed = refl;
      tail = v.tiles;
      order = omega arith;
      table = v.table;
    } in
    let fits = Tiles-end m.block 0 bs m.free_space_ptr v.tiles in
    Returns-bind
      (find_dirty-Found (m.free_space_ptr + 1) m (live_blocks bs) [] bs 0 start refl
        (omega (arith, fits)))
      λ dirty (done, rest, s, plan, small).
        let same : (if ltb 0 dirty then dirty else 0) ≡ dirty = ground arith in
        rw same (
          Returns-bind
            (slide-Slid memcpy up (live_blocks bs) (Unique-live_blocks bs v.unique)
              (m.free_space_ptr + 1) (m.free_space_ptr + 1) m done rest dirty dirty s plan
              (omega (arith, small)) (omega (arith, small)))
            λ out slid.
              Returns-bind
                (check_canaries-Returns max_handles 0 _ (λ h p b.
                  IsValid-canaries (swept-IsValid out.0.stack_usage out.0.kernel v slid) h p b))
                λ _ _. rw (lt→ltb stack max_stack l) (returns (swept-Packed stack _ v slid)))

-- A pass of the thread defragments only a heap with enough dirty space; below the threshold it
-- changes nothing.
pub collect-cases :
    {m : Memory} {bs : List Block} (memcpy : Memcpy) (stack : ℕ)
    → CopiesUp memcpy
    → IsValid m bs
    → stack < max_stack
    → Returns
        (λ m'.
          (m.dirty_space < defrag_threshold) × (m' ≡ m)
          ⊎ (defrag_threshold ≤ m.dirty_space) × Packed bs m')
        (collect memcpy stack m)
unfolding collect
collect-cases {m} memcpy stack up v l = elim (Bool-cases (ltb m.dirty_space defrag_threshold)) [
  | inl w ↦ rw w (returns (inl (ltb→lt _ _ w, refl)))
  | inr r ↦
      rw r (Returns-mono (defrag-live_blocks memcpy stack up v l) (λ m' p. inr (ground arith, p)))
]
