-- ===== src/Routes.antt =====
-- src/routing2.c: the table of routes, the queries on it, and the discovery of routes.
-- The lists of src/list.c are lists. The neighbors of src/wcom_neighbors.c are an interface, and
-- what src/config.c says of this node is a record. Whether a list node can be made is an argument.
pub mod Discovery
pub mod Table
pub mod Loops
pub mod Requests
pub mod Errors
pub mod Ages
mod Tests
use sapphire_os.Prelude.{
  ltb, leb, ◌==◌, if◌then◌else◌, bit, length, get_elem?, drop, repeat, ◌>>=◌, ◌>>◌, within, Run, ok,
  assert_failed, ℕ, zero, suc, ◌+◌, ◌%◌, ◌^◌, Bool, true, false, not, ◌&&◌, ◌||◌, Option, none,
  some, List, [], ◌∷◌, ◌++◌,
}
use sapphire_os.Ip.{Addr, addr_compare, is_zeroes}

-- `route_query_t`
pub record RouteQuery : Type 0 where
  pub ip : Addr
  pub short_addr : ℕ
  pub flags : ℕ

-- `route2_t`
pub record Route : Type 0 where
  pub dest_ip : Addr
  pub dest_short : ℕ
  pub dest_flags : ℕ
  pub cost : ℕ
  pub age : ℕ
  pub hop_count : ℕ
  pub hops : List ℕ

-- what src/config.c says of this node
pub record Node : Type 0 where
  pub own_ip : Addr
  pub own_short : ℕ
  pub is_gateway : Bool
  pub enable_routing : Bool

-- the functions of src/wcom_neighbors.h that the routes ask
pub record Neighbors : Type 0 where
  pub is_neighbor : ℕ → Bool
  pub get_short : Addr → ℕ
  pub get_gateway : ℕ
  pub get_cost : ℕ → ℕ
  pub neighbor_ip : ℕ → Option Addr

-- the table, and the parameter CFG_PARAM_MAX_ROUTES, which `add` may correct
pub record RouteTable : Type 0 where
  pub routes : List Route
  pub max_routes : ℕ

-- `ROUTE2_MAXIMUM_HOPS`
abbrev pub maximum_hops : ℕ
maximum_hops = 8

-- `ROUTE2_DEST_FLAGS_IS_GATEWAY` and `ROUTE2_DEST_FLAGS_PROXY`, as digits of the flags
abbrev pub gateway_digit : ℕ
gateway_digit = 0

abbrev pub proxy_digit : ℕ
proxy_digit = 6

abbrev pub broadcast_short : ℕ
broadcast_short = 0xffff

abbrev pub zero_ip : Addr
zero_ip = record { ip3 = 0; ip2 = 0; ip1 = 0; ip0 = 0 }

-- `route2_b_evaluate_query`
unfoldable pub evaluate_query : RouteQuery → RouteQuery → Bool
evaluate_query one two =
    if not (is_zeroes one.ip) && addr_compare one.ip two.ip
    then true
    else if not (one.short_addr == 0) && (one.short_addr == two.short_addr)
    then true
    else if (bit one.flags gateway_digit == 1) && (bit two.flags gateway_digit == 1)
    then true
    else false

-- `route2_q_query_ip`
unfoldable pub query_ip : Addr → RouteQuery
query_ip ip = record { ip = ip; short_addr = 0; flags = 0 }

-- `route2_q_query_short`
unfoldable pub query_short : ℕ → RouteQuery
query_short short_addr = record { ip = zero_ip; short_addr = short_addr; flags = 0 }

-- `route2_q_query_flags`
unfoldable pub query_flags : ℕ → RouteQuery
query_flags flags = record { ip = zero_ip; short_addr = 0; flags = flags }

-- `route2_q_query_self`
unfoldable pub query_self : Node → RouteQuery
query_self node = record {
  ip = node.own_ip;
  short_addr = node.own_short;
  flags = if node.is_gateway then 1 else 0;
}

-- the query of a route's destination
abbrev pub query_of : Route → RouteQuery
query_of r = record { ip = r.dest_ip; short_addr = r.dest_short; flags = r.dest_flags }

-- `route2_i8_query_list`: the route that is found, if there is one
unfoldable pub query_list : RouteQuery → ℕ → List Route → Option Route
query_list query cost [] = none
query_list query cost (r ∷ rest) =
    let later = query_list query cost rest in
    if evaluate_query query (query_of r) && ltb r.cost cost then some r else later

-- an array of hops with two entries
abbrev pub two_hops : ℕ → ℕ → List ℕ
two_hops a b = a ∷ b ∷ repeat 6 0

-- `route2_i8_query_neighbors`
unfoldable pub query_neighbors : Node → Neighbors → RouteQuery → Route → Run (Option Route)
query_neighbors node n query route =
    let short_addr =
      if not (query.short_addr == 0) && n.is_neighbor query.short_addr
      then query.short_addr
      else if not (is_zeroes query.ip)
      then n.get_short query.ip
      else if bit query.flags gateway_digit == 1
      then n.get_gateway
      else 0 in
    elim ((short_addr == 0) || leb route.cost (n.get_cost short_addr)) [
      | true ↦ ok none
      | false ↦ elim (n.neighbor_ip short_addr) [
        | none ↦ assert_failed
        | some ip ↦ ok (
            some (record route {
              dest_ip = ip;
              dest_short = short_addr;
              dest_flags = 0;
              cost = n.get_cost short_addr;
              age = 0;
              hop_count = 2;
              hops = node.own_short ∷ short_addr ∷ drop 2 route.hops;
            }))
      ]
    ]

-- `memset` of a route to 0, with the cost of `route2_i8_get`
abbrev pub no_route : Route
no_route = record {
  dest_ip = zero_ip;
  dest_short = 0;
  dest_flags = 0;
  cost = 65535;
  age = 0;
  hop_count = 0;
  hops = repeat 8 0;
}

-- `route2_i8_get`; `broadcast` is what ip_b_check_broadcast says of the address of the query
unfoldable pub get : Node → Neighbors → Bool → RouteQuery → List Route → Run (Option Route)
get node n broadcast query routes =
    let self = query_self node in
    elim (evaluate_query query self) [
      | true ↦ ok (
          some (record no_route {
            dest_ip = self.ip;
            dest_short = self.short_addr;
            dest_flags = self.flags;
            cost = 0;
            hop_count = 2;
            hops = two_hops node.own_short node.own_short;
          }))
      | false ↦ elim broadcast [
        | true ↦ ok (
            some (record no_route {
              dest_ip = query.ip;
              dest_short = broadcast_short;
              cost = 0;
              hop_count = 2;
              hops = two_hops node.own_short broadcast_short;
            }))
        | false ↦ do
          let listed : Route = elim (query_list query 65535 routes) [ none ↦ no_route | some r ↦ r ]
          near ← query_neighbors node n query listed
          let best : Route = elim near [ none ↦ listed | some r ↦ r ]
          ok (if best.cost == 65535 then none else some best)
      ]
    ]

-- `compare_route_dest`
unfoldable pub compare_route_dest : Route → Route → Bool
compare_route_dest one two =
    if not (is_zeroes one.dest_ip) && addr_compare one.dest_ip two.dest_ip
    then true
    else if not (one.dest_short == 0)
        && (bit one.dest_flags proxy_digit == 0)
        && (one.dest_short == two.dest_short)
    then true
    else false

-- `route2_v_traffic`
unfoldable pub traffic : Route → List Route → List Route
traffic route [] = []
traffic route (r ∷ rest) =
    let later = traffic route rest in
    if compare_route_dest route r then record r { age = 0 } ∷ rest else r ∷ later

-- the inner loop of `route2_i8_check_for_loops`: `k` hops from hop `j` on
unfoldable pub has_hop : ℕ → ℕ → ℕ → List ℕ → Run Bool
has_hop zero j hop hops = ok false
has_hop (suc k) j hop hops = do
  other ← within (get_elem? hops j)
  elim (hop == other) [ true ↦ ok true | false ↦ has_hop k (j + 1) hop hops ]

-- the outer loop of `route2_i8_check_for_loops`: `k` hops from hop `i` on, and those behind them
unfoldable pub has_loop : ℕ → ℕ → List ℕ → Run Bool
has_loop zero i hops = ok false
has_loop (suc k) i hops = do
  hop ← within (get_elem? hops i)
  found ← has_hop k (i + 1) hop hops
  elim found [ true ↦ ok true | false ↦ has_loop k (i + 1) hops ]

-- `route2_i8_check_for_loops` and `route2_i8_check`; `true` is a sound route
unfoldable pub check : Neighbors → Route → Run Bool
check n route = do
  loop ← has_loop route.hop_count 0 route.hops
  elim loop [
    | true ↦ ok false
    | false ↦ do next ← within (get_elem? route.hops 1); ok (n.is_neighbor next)
  ]

-- the search of `route2_i8_add` for the same destination, and what it does there; `none` where there
-- is no such route
unfoldable pub replace : Route → List Route → Option (List Route)
replace route [] = none
replace route (r ∷ rest) =
    let later = replace route rest in
    if compare_route_dest route r
    then some ((if leb route.cost r.cost then record route { age = 0 } else r) ∷ rest)
    else elim later [ none ↦ none | some changed ↦ some (r ∷ changed) ]

-- the number of the routes, as `list_u8_count` gives it
abbrev pub route_count : List Route → ℕ
route_count routes = length routes % 2 ^ 8

-- `route2_i8_add`; the result is whether the status is 0
unfoldable pub add : Neighbors → Bool → Route → RouteTable → Run (Bool × RouteTable)
add n room route t = do
  sound ← check n route
  elim sound [
    | false ↦ ok (false, t)
    | true ↦ elim (replace route t.routes) [
      | some changed ↦ ok (true, record t { routes = changed })
      | none ↦
          let u : RouteTable = record t {
            max_routes = if ltb t.max_routes 2 then 2 else t.max_routes;
          } in
          elim (leb u.max_routes (route_count t.routes) || not room) [
            | true ↦ ok (false, u)
            | false ↦ ok (true, record u { routes = t.routes ++ (record route { age = 0 } ∷ []) })
          ]
    ]
  ]

-- `route2_i8_delete`; `none` where no route matches
unfoldable pub delete : RouteQuery → List Route → Option (List Route)
delete query [] = none
delete query (r ∷ rest) =
    let later = delete query rest in
    if evaluate_query query (query_of r)
    then some rest
    else elim later [ none ↦ none | some left ↦ some (r ∷ left) ]
