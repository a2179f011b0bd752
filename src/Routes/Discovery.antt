-- ===== src/Routes/Discovery.antt =====
-- The requests, replies and discoveries of routes: src/routing2.c. The logs are left out, and so is
-- the sending: what is sent is a result.
use sapphire_os.Prelude.{
  ltb, leb, ◌==◌, if◌then◌else◌, update, length, get_elem?, split_at, repeat, add8, add16, ◌>>=◌,
  ◌>>◌, assert, within, Run, ok, out_of_bounds, ℕ, zero, suc, ◌+◌, ◌-◌, ◌/◌, ◌%◌, ◌^◌, Bool, true,
  false, not, ◌&&◌, ◌||◌, List, [], ◌∷◌, ◌++◌,
}
use sapphire_os.Routes.{
  RouteQuery, Route, Node, Neighbors, RouteTable, maximum_hops, evaluate_query, query_self, add,
}

-- `replay_cache_entry_t`
pub record ReplayEntry : Type 0 where
  pub tag : ℕ
  pub source_addr : ℕ

pub record ReplayCache : Type 0 where
  pub entries : ℕ → ReplayEntry
  pub replay_cache_ptr : ℕ

-- `ROUTE2_REPLAY_CACHE_ENTRIES`
abbrev pub cache_entries : ℕ
cache_entries = 8

-- `rreq2_t`, without its type, version and flags
pub record Rreq : Type 0 where
  pub tag : ℕ
  pub query : RouteQuery
  pub forward_cost : ℕ
  pub reverse_cost : ℕ
  pub hop_count : ℕ
  pub hops : List ℕ

-- `rrep2_t`, in the same way
pub record Rrep : Type 0 where
  pub tag : ℕ
  pub query : RouteQuery
  pub forward_cost : ℕ
  pub reverse_cost : ℕ
  pub hop_count : ℕ
  pub hop_index : ℕ
  pub hops : List ℕ

-- `discovery_t`
pub record Pending : Type 0 where
  pub query : RouteQuery
  pub tries : ℕ

-- `PROCESS_RREQ_NO_OP` and the other outcomes of a request
pub data RreqOp : Type 0 where
  rreq_no_op : RreqOp
  rreq_dest : RreqOp
  rreq_proxy : RreqOp
  rreq_forward : RreqOp

-- `PROCESS_RREP_NO_OP` and the other outcomes of a reply
pub data RrepOp : Type 0 where
  rrep_no_op : RrepOp
  rrep_dest : RrepOp
  rrep_forward : RrepOp

-- the search of `add_to_replay_cache`: `k` entries from entry `i` on
unfoldable pub in_cache : ℕ → ℕ → ℕ → ℕ → (ℕ → ReplayEntry) → Bool
in_cache zero i source tag entries = false
in_cache (suc k) i source tag entries =
    let rest = in_cache k (i + 1) source tag entries in
    if ((entries i).source_addr == source) && ((entries i).tag == tag) then true else rest

-- `add_to_replay_cache`
unfoldable pub add_to_replay_cache : ℕ → ℕ → ReplayCache → Bool × ReplayCache
add_to_replay_cache source tag c = elim (in_cache cache_entries 0 source tag c.entries) [
  | true ↦ (true, c)
  | false ↦
      let next = add8 c.replay_cache_ptr 1 in
      (
        false,
        record {
          entries =
              update c.entries c.replay_cache_ptr (record { tag = tag; source_addr = source });
          replay_cache_ptr = if leb cache_entries next then 0 else next;
        },
      )
]

-- an array with one entry replaced
abbrev pub set_hop : ℕ → ℕ → List ℕ → List ℕ
set_hop i hop [] = []
set_hop zero hop (h ∷ hops) = hop ∷ hops
set_hop (suc i) hop (h ∷ hops) = h ∷ set_hop i hop hops

-- `route2_v_init_rreq`
unfoldable pub init_rreq : Node → ℕ → RouteQuery → Rreq
init_rreq node random query = record {
  tag = random;
  query = query;
  forward_cost = 0;
  reverse_cost = 0;
  hop_count = 1;
  hops = node.own_short ∷ repeat 7 0;
}

-- `route2_v_init_rrep`, on a reply that holds `old` hops
unfoldable pub init_rrep : Node → Bool → List ℕ → Rreq → Run Rrep
init_rrep node proxy old rreq = do
  assert (leb 2 rreq.hop_count)
  (hops, rest) ← within (split_at rreq.hop_count rreq.hops)
  (before, after) ← within (split_at rreq.hop_count old)
  ok (record {
    tag = rreq.tag;
    query = if proxy then record rreq.query { flags = 64; short_addr = 65534 } else query_self node;
    forward_cost = 0;
    reverse_cost = rreq.reverse_cost;
    hop_count = rreq.hop_count;
    hop_index = rreq.hop_count - 2;
    hops = hops ++ after;
  })

-- the search of `route2_i8_process_rreq` for this node: `k` hops from hop `i` on
unfoldable pub passed : ℕ → ℕ → ℕ → List ℕ → Run Bool
passed zero i own hops = ok false
passed (suc k) i own hops = do
  hop ← within (get_elem? hops i)
  elim (hop == own) [ true ↦ ok true | false ↦ passed k (i + 1) own hops ]

-- the part of `route2_i8_process_rreq` that adds this node to the request
unfoldable pub add_self : Node → Neighbors → Rreq → Run Rreq
add_self node n rreq = do
  last_hop ← elim (rreq.hop_count == 0) [
    | true ↦ out_of_bounds
    | false ↦ within (get_elem? rreq.hops (rreq.hop_count - 1))
  ]
  old ← within (get_elem? rreq.hops rreq.hop_count)
  ok (record rreq {
    reverse_cost = add16 rreq.reverse_cost (n.get_cost last_hop);
    hop_count = rreq.hop_count + 1;
    hops = set_hop rreq.hop_count node.own_short rreq.hops;
  })

-- `route2_i8_process_rreq`; `proxy` is whether there is a route to the target of the query in the
-- application, as the hook route2_i8_proxy_routes says
unfoldable pub process_rreq :
    Node → Neighbors → Bool → Rreq → ReplayCache → Run (RreqOp × Rreq × ReplayCache)
process_rreq node n proxy rreq c =
    let destination = evaluate_query rreq.query (query_self node) || proxy in
    elim (not destination && not node.enable_routing) [
      | true ↦ ok (rreq_no_op, rreq, c)
      | false ↦ do
        source ← within (get_elem? rreq.hops 0)
        let (known, d) = add_to_replay_cache source rreq.tag c
        elim (known || leb maximum_hops rreq.hop_count) [
          | true ↦ ok (rreq_no_op, rreq, d)
          | false ↦ do
            seen ← passed rreq.hop_count 0 node.own_short rreq.hops
            elim seen [
              | true ↦ ok (rreq_no_op, rreq, d)
              | false ↦ do
                added ← add_self node n rreq
                ok (
                  if proxy then rreq_proxy else if destination then rreq_dest else rreq_forward,
                  added,
                  d,
                )
            ]
        ]
    ]

-- `route2_i8_process_rrep`
unfoldable pub process_rrep : Node → Neighbors → Rrep → Run (RrepOp × Rrep)
process_rrep node n rrep = do
  first ← within (get_elem? rrep.hops 0)
  let origin = first == node.own_short
  elim (not origin && not node.enable_routing) [
    | true ↦ ok (rrep_no_op, rrep)
    | false ↦ do
      here ← within (get_elem? rrep.hops rrep.hop_index)
      elim (here == node.own_short) [
        | false ↦ ok (rrep_no_op, rrep)
        | true ↦ do
          last_hop ← within (get_elem? rrep.hops (rrep.hop_index + 1))
          let counted : Rrep = record rrep {
            forward_cost = add16 rrep.forward_cost (n.get_cost last_hop);
          }
          ok (
              if origin
              then (if ltb rrep.hop_count 2
                  then (rrep_no_op, counted)
                  else if n.is_neighbor rrep.query.short_addr
                  then (rrep_no_op, counted)
                  else (rrep_dest, counted))
              else if rrep.hop_index == 0
              then (rrep_no_op, counted)
              else (rrep_forward, record counted { hop_index = rrep.hop_index - 1 }))
      ]
  ]

-- `route2_b_discovery_in_progress`
unfoldable pub in_progress : RouteQuery → List Pending → Bool
in_progress query [] = false
in_progress query (p ∷ rest) =
    let later = in_progress query rest in if evaluate_query p.query query then true else later

-- `route2_v_cancel_discovery`
unfoldable pub cancel_discovery : RouteQuery → List Pending → List Pending
cancel_discovery query [] = []
cancel_discovery query (p ∷ rest) =
    let later = cancel_discovery query rest in
    if evaluate_query p.query query then rest else p ∷ later

-- `route2_i8_discover`, with the parameter CFG_PARAM_MAX_ROUTE_DISCOVERIES, which it may correct;
-- `room` is whether a list node can be made
unfoldable pub discover : Bool → RouteQuery → ℕ → List Pending → Bool × ℕ × List Pending
discover room query max_discoveries pending =
    if in_progress query pending
    then (true, max_discoveries, pending)
    else (let most = if ltb max_discoveries 2 then 2 else max_discoveries in
        if leb most (length pending % 2 ^ 8) || not room
        then (false, most, pending)
        else (true, most, pending ++ (record { query = query; tries = 3 } ∷ [])))

-- the route that `process_rrep` makes of a reply, whose hops are copied by their count
unfoldable pub route_of : Rrep → Run Route
route_of rrep = do
  (hops, rest) ← within (split_at rrep.hop_count rrep.hops)
  (zeroes, left) ← within (split_at rrep.hop_count (repeat maximum_hops 0))
  ok (record {
    dest_ip = rrep.query.ip;
    dest_short = rrep.query.short_addr;
    dest_flags = rrep.query.flags;
    cost = rrep.forward_cost;
    age = 0;
    hop_count = rrep.hop_count;
    hops = hops ++ left;
  })

-- the part of `process_rrep` that takes a reply to this node: the route is added, and the discovery
-- ends unless a hop costs 24 or more
unfoldable pub take_reply :
    Neighbors → Bool → Rrep → RouteTable → List Pending → Run (RouteTable × List Pending)
take_reply n room rrep t pending = do
  route ← route_of rrep
  (added, u) ← add n room route t
  ok (
    u,
    if ltb (route.cost / route.hop_count % 2 ^ 8) 24
        then cancel_discovery rrep.query pending
        else pending,
  )
