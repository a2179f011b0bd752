-- ===== src/Routes/Requests.antt =====
-- The hops of a request for a route: `route2_i8_process_rreq` of src/routing2.c.
use sapphire_os.Prelude.{
  leb, ◌==◌, if◌then◌else◌, ==→eq, Bool-cases, length, get_elem?, ◌>>=◌, Returns-bind, Returns-mono,
  Returns, returns, ℕ, zero, suc, ◌+◌, ◌-◌, ◌≤◌, ◌<◌, ◌≡◌, refl, ◌∙◌, ◌≢◌, inl, inr, Bool, true,
  false, not, ◌&&◌, ◌||◌, some, List, [], ◌∷◌, arith,
}
use sapphire_os.Routes.{Node, Neighbors, maximum_hops, evaluate_query, query_self}
use sapphire_os.Routes.Discovery.{
  Rreq, ReplayCache, RreqOp, rreq_no_op, rreq_dest, rreq_proxy, rreq_forward, add_to_replay_cache,
  set_hop, passed, add_self, process_rreq,
}
use sapphire_os.Routes.Loops.{IsDistinct, get_elem?-inside, some-injective}

-- the search for this node ends, and finds nothing only where it is not
passed-none :
    (k j own : ℕ) (hops : List ℕ)
    → j + k ≤ length hops
    → Returns
        (λ found. found ≡ false → (i : ℕ) → j ≤ i → i < j + k → get_elem? hops i ≢ some own)
        (passed k j own hops)
unfolding passed
passed-none zero j own hops l = returns (λ e i p q. absurd (omega arith))
passed-none (suc k) j own hops l =
    let (hop, is) = get_elem?-inside hops j (omega arith) in
    elim (Bool-cases (hop == own)) [
      | inl same ↦ rw (passed, is, ◌>>=◌, same) (returns (λ e. cc))
      | inr differs ↦
          rw (passed, is, ◌>>=◌, differs)
            (Returns-mono (passed-none k (j + 1) own hops (omega arith)) λ found later e i p q.
              elim (Bool-cases (j == i)) [
                | inr beyond ↦ later e i (ground arith) (omega arith)
                | inl here ↦
                    let at : j ≡ i = ==→eq j i here in
                    let not_same : hop ≢ own = ground (arith, differs) in
                    rw (← at, is) (some-injective hop own not_same)
              ])
    ]

length-set_hop : (i hop : ℕ) (hops : List ℕ) → length (set_hop i hop hops) ≡ length hops
length-set_hop i hop [] = refl
length-set_hop zero hop (h ∷ hops) = refl
length-set_hop (suc i) hop (h ∷ hops) = omega (arith, length-set_hop i hop hops)

get_elem?-set_hop_other :
    (i j hop : ℕ) (hops : List ℕ) → i ≢ j → get_elem? (set_hop i hop hops) j ≡ get_elem? hops j
get_elem?-set_hop_other i j hop [] other = refl
get_elem?-set_hop_other zero zero hop (h ∷ hops) other = absurd (other refl)
get_elem?-set_hop_other zero (suc j) hop (h ∷ hops) other = refl
get_elem?-set_hop_other (suc i) zero hop (h ∷ hops) other = refl
get_elem?-set_hop_other (suc i) (suc j) hop (h ∷ hops) other =
    get_elem?-set_hop_other i j hop hops (λ e. other (omega (arith, e)))

get_elem?-set_hop_same :
    (i hop : ℕ) (hops : List ℕ) → i < length hops → get_elem? (set_hop i hop hops) i ≡ some hop
get_elem?-set_hop_same i hop [] l = absurd (omega arith)
get_elem?-set_hop_same zero hop (h ∷ hops) l = refl
get_elem?-set_hop_same (suc i) hop (h ∷ hops) l = get_elem?-set_hop_same i hop hops (omega arith)

-- a request with room for its hops, of which none comes twice
pub record IsSimple (r : Rreq) : Type 0 where
  pub whole : length r.hops ≡ maximum_hops
  pub some_hop : 1 ≤ r.hop_count
  pub inside : r.hop_count ≤ maximum_hops
  pub distinct : IsDistinct r.hop_count r.hops

-- the request `s` is `r` with this node as one more hop
pub record IsGrown (node : Node) (r s : Rreq) : Type 0 where
  pub simple : IsSimple s
  pub one_more : s.hop_count ≡ r.hop_count + 1
  pub last : get_elem? s.hops r.hop_count ≡ some node.own_short

-- what becomes of the request `r`
pub data Processed (node : Node) (r : Rreq) : RreqOp → Rreq → Type 0 where
  dropped : Processed node r rreq_no_op r
  grown : {op : RreqOp} {s : Rreq} → op ≢ rreq_no_op → IsGrown node r s → Processed node r op s

below_count : (count j : ℕ) → (count == j) ≡ false → j < count + 1 → j < count
below_count count j e l = ground (arith, e)

add_self-IsSimple :
    (node : Node) (n : Neighbors) (r : Rreq)
    → IsSimple r
    → r.hop_count < maximum_hops
    → ((i : ℕ) → i < r.hop_count → get_elem? r.hops i ≢ some node.own_short)
    → Returns (IsGrown node r) (add_self node n r)
unfolding add_self
add_self-IsSimple node n r simple room absent =
    let not_none : (r.hop_count == 0) ≡ false = ground (arith, simple.some_hop) in
    let (last, last_is) =
      get_elem?-inside r.hops (r.hop_count - 1) (omega (arith, simple.whole, simple.some_hop)) in
    let (old, old_is) = get_elem?-inside r.hops r.hop_count (omega (arith, simple.whole)) in
    rw (not_none, last_is, ◌>>=◌, old_is)
      (returns (record {
        last =
            get_elem?-set_hop_same r.hop_count node.own_short r.hops (omega (arith, simple.whole));
        one_more = refl;
        simple = record {
          whole = length-set_hop r.hop_count node.own_short r.hops ∙ simple.whole;
          some_hop = omega arith;
          inside = omega arith;
          distinct = λ i j p q. elim (Bool-cases (r.hop_count == j)) [
            | inl new ↦
                let at : r.hop_count ≡ j = ==→eq _ j new in
                rw
                  (
                    ← at,
                    get_elem?-set_hop_same r.hop_count node.own_short r.hops
                        (omega (arith, simple.whole)),
                    get_elem?-set_hop_other r.hop_count i node.own_short r.hops
                        (λ e. omega (arith, e, at)),
                  )
                  (absent i (omega (arith, at)))
            | inr before ↦
                let earlier = below_count r.hop_count j before q in
                rw
                  (
                    get_elem?-set_hop_other r.hop_count i node.own_short r.hops
                        (λ e. omega (arith, e, p, earlier)),
                    get_elem?-set_hop_other r.hop_count j node.own_short r.hops
                        (λ e. omega (arith, e, p, earlier)),
                  )
                  (simple.distinct i j p earlier)
          ];
        };
      }))

-- A request with one hop or more, whose hops are in its array, and of which none comes twice, is processed without an access
-- outside the array; it is dropped as it is, or is still such a request when it is answered or sent on,
-- with this node as its one new hop, at the end.
pub process_rreq-IsSimple :
    (node : Node) (n : Neighbors) (proxy : Bool) (r : Rreq) (c : ReplayCache)
    → IsSimple r
    → Returns (λ (op, s, d). Processed node r op s) (process_rreq node n proxy r c)
unfolding process_rreq
process_rreq-IsSimple node n proxy r c simple =
    let (source, first) = get_elem?-inside r.hops 0 (omega (arith, simple.whole)) in
    let out = add_to_replay_cache source r.tag c in
    elim (Bool-cases
      (not (evaluate_query r.query (query_self node) || proxy) && not node.enable_routing)) [
        | inl not_ours ↦ rw (process_rreq, not_ours) (returns dropped)
        | inr ours ↦ elim (Bool-cases (out.0 || leb maximum_hops r.hop_count)) [
          | inl stop ↦ rw (process_rreq, ours, first, ◌>>=◌, stop) (returns dropped)
          | inr go ↦
              rw (process_rreq, ours, first, ◌>>=◌, go)
                (Returns-bind
                  (passed-none r.hop_count 0 node.own_short r.hops
                    (omega (arith, simple.whole, simple.inside)))
                  λ found absent. elim (Bool-cases found) [
                    | inl seen ↦ rw seen (returns dropped)
                    | inr unseen ↦ rw unseen (
                        Returns-bind
                          (add_self-IsSimple node n r simple (fits out.0 r.hop_count go)
                            λ i l. absent unseen i (omega arith) (omega arith))
                          λ s is_grown. returns (grown (answers proxy _) is_grown))
                  ])
        ]
      ]
  where
    answers :
        (proxy destination : Bool)
        → (if proxy then rreq_proxy else if destination then rreq_dest else rreq_forward)
          ≢ rreq_no_op
    answers true destination = λ e. cc
    answers false true = λ e. cc
    answers false false = λ e. cc

    fits :
        (known : Bool) (count : ℕ)
        → (known || leb maximum_hops count) ≡ false
        → count < maximum_hops
    fits known count e = ground (arith, e)
