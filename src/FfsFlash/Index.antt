-- ===== src/FfsFlash/Index.antt =====
-- `ffs_block_i8_get_index_info` of src/ffs_block.c finds the newest page of a block.
use sapphire_os.Prelude.{
  ◌==◌, if◌then◌else◌, Bool-cases, length, get_elem?, length-append, is_neg, minus_one, ℤ, pos, ℕ,
  zero, suc, ◌+◌, ◌≤◌, ◌<◌, ◌≡◌, refl, sym, ◌∙◌, ◌⊎◌, inl, inr, true, false, some, List, [], ◌∷◌,
  ◌++◌, arith,
}
use mathlib.Core.Path.{subst, subst₂}
use mathlib.Core.List.{append-nil, append_assoc}
use sapphire_os.FfsFlash.{
  IndexInfo, signed8, reaches, scan_entry, scan_index, no_pages, data_pages_per_block,
}

-- an entry is free, or names one of the data pages
abbrev pub Entries : List ℕ → Type 0
Entries [] = Unit
Entries (e ∷ es) = ((e ≡ 0xff) ⊎ (e < data_pages_per_block)) × Entries es

abbrev pub free_count : List ℕ → ℕ
free_count [] = 0
free_count (e ∷ es) = (if e == 0xff then 1 else 0) + free_count es

-- the place of the first free entry
abbrev pub first_free : ℕ → List ℕ → ℤ
first_free i [] = minus_one
first_free i (e ∷ es) = if e == 0xff then pos i else first_free (i + 1) es

-- the largest page number, and the last entry that has it; `i` is the place of the first entry
pub data Newest (es : List ℕ) : ℤ → ℤ → Type 0 where
  nowhere : ((j e : ℕ) → get_elem? es j ≡ some e → e ≡ 0xff) → Newest es minus_one minus_one
  at :
      (page i : ℕ)
      → get_elem? es i ≡ some page
      → page < data_pages_per_block
      → ((j e : ℕ) → get_elem? es j ≡ some e → (e ≡ 0xff) ⊎ (e ≤ page))
      → ((j e : ℕ) → get_elem? es j ≡ some e → i < j → (e ≡ 0xff) ⊎ (e < page))
      → Newest es (pos page) (pos i)

-- what is known after the entries `es`
record Scanned (es : List ℕ) (info : IndexInfo) : Type 0 where
  pub free : info.free_pages ≡ free_count es
  pub next : info.phy_next_free ≡ first_free 0 es
  pub newest : Newest es info.logical_last_page info.phy_last_page

free_count-append :
    (es : List ℕ) (e : ℕ) → free_count (es ++ e ∷ []) ≡ free_count es + (if e == 0xff then 1 else 0)
free_count-append [] e = omega arith
free_count-append (x ∷ xs) e = omega (arith, free_count-append xs e)

free_count-le : (es : List ℕ) → free_count es ≤ length es
free_count-le [] = omega arith
free_count-le (x ∷ xs) = ground (arith, free_count-le xs)

first_free-append :
    (i : ℕ) (es : List ℕ) (e : ℕ)
    → first_free i (es ++ e ∷ []) ≡ (
        if is_neg (first_free i es)
        then (if e == 0xff then pos (i + length es) else minus_one)
        else first_free i es)
first_free-append i [] e = ground arith
first_free-append i (x ∷ xs) e = ground (arith, first_free-append (i + 1) xs e)

first_free_used :
    (i : ℕ) (es : List ℕ) (e : ℕ)
    → (e == 0xff) ≡ false
    → first_free i (es ++ e ∷ []) ≡ first_free i es
first_free_used i [] e h = rw h
first_free_used i (x ∷ xs) e h = ground (arith, first_free_used (i + 1) xs e)

-- the entries of a list with one more behind it
get_elem?-snoc :
    (es : List ℕ) (e j x : ℕ)
    → get_elem? (es ++ e ∷ []) j ≡ some x
    → (get_elem? es j ≡ some x) × (j < length es) ⊎ (j ≡ length es) × (x ≡ e)
get_elem?-snoc [] e zero x h = inr (refl, cc)
get_elem?-snoc [] e (suc j) x h = cc
get_elem?-snoc (y ∷ ys) e zero x h = inl (h, omega arith)
get_elem?-snoc (y ∷ ys) e (suc j) x h = elim (get_elem?-snoc ys e j x h) [
  | inl (old, l) ↦ inl (old, omega arith)
  | inr (end, is) ↦ inr (omega arith, is)
]

get_elem?-front :
    (es : List ℕ) (e j x : ℕ) → get_elem? es j ≡ some x → get_elem? (es ++ e ∷ []) j ≡ some x
get_elem?-front [] e j x h = cc
get_elem?-front (y ∷ ys) e zero x h = h
get_elem?-front (y ∷ ys) e (suc j) x h = get_elem?-front ys e j x h

get_elem?-last : (es : List ℕ) (e : ℕ) → get_elem? (es ++ e ∷ []) (length es) ≡ some e
get_elem?-last [] e = refl
get_elem?-last (y ∷ ys) e = get_elem?-last ys e

-- a free entry changes nothing
Newest-free :
    (es : List ℕ) (e : ℕ) (page i : ℤ) → Newest es page i → e ≡ 0xff → Newest (es ++ e ∷ []) page i
Newest-free es e _ _ (nowhere all) f = nowhere (λ j x h. elim (get_elem?-snoc es e j x h) [
  | inl (old, l) ↦ all j x old
  | inr (end, is) ↦ is ∙ f
])
Newest-free es e _ _ (at page i there small most last) f =
    at page i (get_elem?-front es e i page there) small
      (λ j x h. elim (get_elem?-snoc es e j x h) [
        | inl (old, l) ↦ most j x old
        | inr (end, is) ↦ inl (is ∙ f)
      ])
      (λ j x h k. elim (get_elem?-snoc es e j x h) [
        | inl (old, l) ↦ last j x old k
        | inr (end, is) ↦ inl (is ∙ f)
      ])

-- an entry that is not lower than the others is the newest
Newest-reaches :
    (es : List ℕ) (e : ℕ) (page i : ℤ)
    → Newest es page i
    → e < data_pages_per_block
    → reaches e page ≡ true
    → Newest (es ++ e ∷ []) (pos e) (pos (length es))
Newest-reaches es e _ _ (nowhere all) l r =
    at e (length es) (get_elem?-last es e) l
      (λ j x h. elim (get_elem?-snoc es e j x h) [
        | inl (old, k) ↦ inl (all j x old)
        | inr (end, is) ↦ inr (omega (arith, is))
      ])
      (λ j x h k. elim (get_elem?-snoc es e j x h) [
        | inl (old, m) ↦ inl (all j x old)
        | inr (end, is) ↦ absurd (omega arith)
      ])
Newest-reaches es e _ _ (at page i there small most last) l r =
    at e (length es) (get_elem?-last es e) l
      (λ j x h. elim (get_elem?-snoc es e j x h) [
        | inl (old, k) ↦ ground (arith, most j x old)
        | inr (end, is) ↦ inr (omega (arith, is))
      ])
      (λ j x h k. elim (get_elem?-snoc es e j x h) [
        | inl (old, m) ↦ absurd (omega arith)
        | inr (end, is) ↦ absurd (omega arith)
      ])

Newest-below :
    (es : List ℕ) (e : ℕ) (page i : ℤ)
    → Newest es page i
    → reaches e page ≡ false
    → Newest (es ++ e ∷ []) page i
Newest-below es e _ _ (nowhere all) r = cc
Newest-below es e _ _ (at page i there small most last) r =
    at page i (get_elem?-front es e i page there) small
      (λ j x h. elim (get_elem?-snoc es e j x h) [
        | inl (old, l) ↦ most j x old
        | inr (end, is) ↦ inr (ground arith)
      ])
      (λ j x h k. elim (get_elem?-snoc es e j x h) [
        | inl (old, l) ↦ last j x old k
        | inr (end, is) ↦ inr (ground arith)
      ])

scan_entry-Scanned :
    (es : List ℕ) (e : ℕ) (info : IndexInfo)
    → Scanned es info
    → length es < 255
    → (e ≡ 0xff) ⊎ (e < data_pages_per_block)
    → Scanned (es ++ e ∷ []) (scan_entry (length es) e info)
unfolding scan_entry
scan_entry-Scanned es e info s l (inl f) =
    let free : (e == 0xff) ≡ true = ground arith in
    let more : free_count (es ++ e ∷ []) ≡ free_count es + 1 = free_count-append es e ∙ rw free in
    rw free (record {
      free = omega (arith, s.free, more, free_count-le es);
      next = rw (s.next, first_free-append 0 es e, free) (ground arith);
      newest = Newest-free es e _ _ s.newest f;
    })
scan_entry-Scanned es e info s l (inr m) =
    let used : (e == 0xff) ≡ false = ground arith in
    elim (Bool-cases (reaches e info.logical_last_page)) [
      | inl r ↦
          let low : signed8 e ≡ pos e = ground arith in
          rw (used, r, low)
            (record {
              free = s.free ∙ sym (free_count-append es e ∙ rw used (omega arith));
              next = s.next ∙ sym (first_free_used 0 es e used);
              newest = Newest-reaches es e _ _ s.newest m r;
            })
      | inr r ↦
          rw (used, r)
            (record {
              free = s.free ∙ sym (free_count-append es e ∙ rw used (omega arith));
              next = s.next ∙ sym (first_free_used 0 es e used);
              newest = Newest-below es e _ _ s.newest r;
            })
    ]

scan_index-Scanned :
    (done rest : List ℕ) (info : IndexInfo)
    → Scanned done info
    → Entries rest
    → length done + length rest < 255
    → Scanned (done ++ rest) (scan_index (length done) rest info)
unfolding scan_index
scan_index-Scanned done [] info s v l = subst (λ es. Scanned es info) (sym (append-nil done)) s
scan_index-Scanned done (e ∷ rest) info s v l =
    let size : length (done ++ e ∷ []) ≡ length done + 1 = length-append done (e ∷ []) in
    let next =
      scan_index-Scanned (done ++ e ∷ []) rest (scan_entry (length done) e info)
        (scan_entry-Scanned done e info s (omega arith) v.0) v.1 (omega (arith, size)) in
    subst₂ (λ es i. Scanned es (scan_index i rest (scan_entry (length done) e info)))
      (append_assoc done (e ∷ []) rest) size next

-- The scan of an index of fewer than 255 entries, each a number of a data page or 0xff: it counts the free
-- entries, finds the first of them, and finds the largest page number and the last entry that holds it.
pub scan_index-Newest :
    (es : List ℕ)
    → Entries es
    → length es < 255
    → let info = scan_index 0 es no_pages in
      (info.free_pages ≡ free_count es)
      × (info.phy_next_free ≡ first_free 0 es)
      × Newest es info.logical_last_page info.phy_last_page
scan_index-Newest es v l =
    let s =
      scan_index-Scanned [] es no_pages
        (record { free = refl; next = refl; newest = Newest.nowhere (λ j e h. cc) }) v
        (omega arith) in
    (s.free, s.next, s.newest)
