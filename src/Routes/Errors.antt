-- ===== src/Routes/Errors.antt =====
-- The errors of routes and the messages that follow from requests and replies: `route2_v_init_rerr`,
-- `route2_i8_error` and the handlers of messages of src/routing2.c. A message that is sent is a value;
-- whether the socket takes it is an argument.
use sapphire_os.Prelude.{
  ltb, ◌==◌, if◌then◌else◌, get_elem?, split_at, repeat, ◌>>=◌, within, Run, ok, ℕ, zero, suc, ◌+◌,
  ◌-◌, ◌%◌, ◌^◌, Bool, true, false, Option, none, some, List, ◌++◌,
}
use sapphire_os.System.{Kernel, stats_increment}
use sapphire_os.System.Stat
use sapphire_os.Ip.{Addr, is_zeroes}
use sapphire_os.Routes.{
  Node, Neighbors, Route, RouteTable, maximum_hops, query_ip, delete, zero_ip, get, query_short,
}
use sapphire_os.Routes.Discovery.{
  Rreq, Rrep, rreq_no_op, rreq_dest, rreq_proxy, rreq_forward, rrep_no_op, rrep_dest, rrep_forward,
  ReplayCache, Pending, init_rrep, process_rreq, process_rrep, take_reply,
}

-- `rerr2_t`, without its type, version and flags
pub record Rerr : Type 0 where
  pub error : ℕ
  pub dest_ip : Addr
  pub origin_ip : Addr
  pub error_ip : Addr
  pub unreachable_hop : ℕ
  pub hop_count : ℕ
  pub hop_index : ℕ
  pub hops : List ℕ

-- the search of `route2_v_init_rerr` for this node, `k` hops from hop `i` on: the index before it
unfoldable pub hop_before : ℕ → ℕ → ℕ → List ℕ → Run ℕ
hop_before zero i own hops = ok 0
hop_before (suc k) i own hops = do
  hop ← within (get_elem? hops i)
  elim (hop == own) [ true ↦ ok ((i + 255) % 2 ^ 8) | false ↦ hop_before k (i + 1) own hops ]

-- `route2_v_init_rerr`, with the addresses of the header of the packet
unfoldable pub init_rerr : Node → Addr → Addr → List ℕ → ℕ → ℕ → ℕ → Run Rerr
init_rerr node dest origin hops hop_count unreachable_hop error = do
  (copied, rest) ← within (split_at hop_count hops)
  (zeroes, left) ← within (split_at hop_count (repeat maximum_hops 0))
  let all = copied ++ left
  index ← hop_before hop_count 0 node.own_short all
  ok (record {
    error = error;
    dest_ip = dest;
    origin_ip = origin;
    error_ip = node.own_ip;
    unreachable_hop = unreachable_hop;
    hop_count = hop_count;
    hop_index = index;
    hops = all;
  })

-- `wcom_neighbors_a_get_ip`, in terms of the neighbor that is found
abbrev pub get_ip : Neighbors → ℕ → Addr
get_ip n short_addr = elim (n.neighbor_ip short_addr) [ none ↦ zero_ip | some ip ↦ ip ]

-- `route2_i8_error`: the message that is passed to the socket, and its receiver
unfoldable pub error :
    Node → Neighbors → Addr → Addr → List ℕ → ℕ → ℕ → ℕ → Run (Option (Rerr × Addr))
error node n dest origin hops hop_count unreachable_hop code = do
  rerr ← init_rerr node dest origin hops hop_count unreachable_hop code
  elim (ltb maximum_hops rerr.hop_count) [
    | true ↦ ok none
    | false ↦ do
      next_hop ← within (get_elem? rerr.hops rerr.hop_index)
      let ip = get_ip n next_hop
      ok (if is_zeroes ip then none else some (rerr, ip))
  ]

-- `route2_a_get_ip`; `broadcast` is what ip_b_check_broadcast says of the address 0.0.0.0
unfoldable pub route_ip : Node → Neighbors → Bool → ℕ → List Route → Run Addr
route_ip node n broadcast short_addr routes = do
  found ← get node n broadcast (query_short short_addr) routes
  ok (elim found [ none ↦ zero_ip | some r ↦ r.dest_ip ])

-- the message that is sent on for a request or a reply, or none
pub data Sent : Type 0 where
  nothing : Sent
  sent_reply : Rrep → Addr → Sent
  sent_on : Rreq → Sent

abbrev pub broadcast_ip : Addr
broadcast_ip = record { ip3 = 255; ip2 = 255; ip1 = 255; ip0 = 255 }

-- the static `process_rreq`, with the hops that stand in the reply before it is made
unfoldable pub receive_rreq :
    Node
    → Neighbors
    → Bool
    → List ℕ
    → Rreq
    → ReplayCache
    → Kernel
    → Run (Sent × ReplayCache × Kernel)
receive_rreq node n proxy old rreq c kernel = do
  k ← stats_increment Stat.routing_rreqs_received kernel
  (op, r, d) ← process_rreq node n proxy rreq c
  elim op [
    | rreq_no_op ↦ ok (nothing, d, k)
    | rreq_dest ↦ answer r false d k
    | rreq_proxy ↦ answer r true d k
    | rreq_forward ↦ ok (sent_on r, d, k)
  ]
  where
    answer : Rreq → Bool → ReplayCache → Kernel → Run (Sent × ReplayCache × Kernel)
    answer r by_proxy d k = do
      rrep ← init_rrep node by_proxy old r
      next_hop ← within (get_elem? rrep.hops rrep.hop_index)
      ok (sent_reply rrep (get_ip n next_hop), d, k)

-- the static `process_rrep`
unfoldable pub receive_rrep :
    Node
    → Neighbors
    → Bool
    → Rrep
    → RouteTable
    → List Pending
    → Kernel
    → Run (Sent × RouteTable × List Pending × Kernel)
receive_rrep node n room rrep t pending kernel = do
  k ← stats_increment Stat.routing_rreps_received kernel
  (op, r) ← process_rrep node n rrep
  elim op [
    | rrep_no_op ↦ ok (nothing, t, pending, k)
    | rrep_dest ↦ do (u, rest) ← take_reply n room r t pending; ok (nothing, u, rest, k)
    | rrep_forward ↦ do
      next_hop ← within (get_elem? r.hops r.hop_index)
      let ip = get_ip n next_hop
      ok (sent_reply r (if is_zeroes ip then broadcast_ip else ip), t, pending, k)
  ]

-- the static `process_rerr`: the message that is sent on, and the table
unfoldable pub receive_rerr :
    Neighbors → Rerr → List Route → Kernel → Run (Option (Rerr × Addr) × List Route × Kernel)
receive_rerr n rerr routes kernel = do
  k ← stats_increment Stat.routing_rerrs_received kernel
  elim (ltb maximum_hops rerr.hop_count) [
    | true ↦ ok (none, routes, k)
    | false ↦ elim (rerr.hop_index == 0) [
      | true ↦ ok (
        none,
        elim (delete (query_ip rerr.dest_ip) routes) [ none ↦ routes | some left ↦ left ],
        k,
      )
      | false ↦ do
        let back : Rerr = record rerr { hop_index = rerr.hop_index - 1 }
        next_hop ← within (get_elem? back.hops back.hop_index)
        let ip = get_ip n next_hop
        ok (if is_zeroes ip then none else some (back, ip), routes, k)
    ]
  ]
