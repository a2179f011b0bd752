-- ===== src/Routes/Tests.antt =====
-- Concrete routes for the theorems on src/routing2.c.
use sapphire_os.Prelude.{
  ◌==◌, get_elem?, repeat, Returns, ok, ℕ, zero, suc, ◌<◌, ◌≡◌, refl, ◌≢◌, true, false, none, [],
  ◌∷◌, arith,
}
use sapphire_os.Routes.{
  Route, Node, Neighbors, RouteTable, check, replace, compare_route_dest, add, has_loop, has_hop,
}
use sapphire_os.Routes.Discovery.{Rreq, ReplayCache, process_rreq}
use sapphire_os.Routes.Table.{Added, add-Added}
use sapphire_os.Routes.Requests.{IsSimple, Processed, process_rreq-IsSimple}
use sapphire_os.Routes.Ages.{AllSound, age_rounds, ageless, age_rounds-ageless}
use sapphire_os.Ip.{Addr, addr_compare, is_zeroes}

abbrev own_address : Addr
own_address = record { ip3 = 10; ip2 = 0; ip1 = 0; ip0 = 1 }

abbrev far_address : Addr
far_address = record { ip3 = 10; ip2 = 0; ip1 = 0; ip0 = 9 }

-- the node with short address 1, whose only neighbor is the node 2
abbrev this_node : Node
this_node = record {
  own_ip = own_address;
  own_short = 1;
  is_gateway = false;
  enable_routing = true;
}

abbrev near : Neighbors
near = record {
  is_neighbor = λ a. a == 2;
  get_short = λ ip. 0;
  get_gateway = 0;
  get_cost = λ a. 10;
  neighbor_ip = λ a. none;
}

abbrev route_to_nine : ℕ → Route
route_to_nine cost = record {
  dest_ip = far_address;
  dest_short = 9;
  dest_flags = 0;
  cost = cost;
  age = 3;
  hop_count = 3;
  hops = 1 ∷ 2 ∷ 9 ∷ repeat 5 0;
}

abbrev one_route : RouteTable
one_route = record { routes = route_to_nine 40 ∷ []; max_routes = 4 }

-- a cheaper route takes the place of the old one
cheaper_route :
    add near true (route_to_nine 30) one_route
    ≡ ok (true, record { routes = record (route_to_nine 30) { age = 0 } ∷ []; max_routes = 4 })
unfolding add check has_loop has_hop replace compare_route_dest is_zeroes addr_compare
cheaper_route = refl

add-Added_example :
    Returns
      (Added near true (route_to_nine 30) one_route)
      (add near true (route_to_nine 30) one_route)
add-Added_example = add-Added near true (route_to_nine 30) one_route (omega arith) (omega arith)

-- a request of the node 5 for the node 9, which came by the node 2
abbrev request : Rreq
request = record {
  tag = 77;
  query = record { ip = far_address; short_addr = 9; flags = 0 };
  forward_cost = 0;
  reverse_cost = 10;
  hop_count = 2;
  hops = 5 ∷ 2 ∷ repeat 6 0;
}

abbrev no_replays : ReplayCache
no_replays = record { entries = λ i. record { tag = 0; source_addr = 0 }; replay_cache_ptr = 0 }

request-IsSimple : IsSimple request
request-IsSimple = record {
  whole = refl;
  some_hop = omega arith;
  inside = omega arith;
  distinct = λ i j p q e. five_not_two i j p q e;
}
  where
    five_not_two : (i j : ℕ) → i < j → j < 2 → get_elem? request.hops i ≢ get_elem? request.hops j
    five_not_two zero zero p q = absurd (omega arith)
    five_not_two zero (suc zero) p q = λ e. cc
    five_not_two (suc i) (suc zero) p q = absurd (omega arith)
    five_not_two i (suc (suc j)) p q = absurd (omega arith)
    five_not_two (suc i) zero p q = absurd (omega arith)

process_rreq-IsSimple_example :
    Returns
      (λ (op, s, d). Processed this_node request op s)
      (process_rreq this_node near false request no_replays)
process_rreq-IsSimple_example =
    process_rreq-IsSimple this_node near false request no_replays request-IsSimple

one_route-AllSound : AllSound near one_route.routes
unfolding check has_loop has_hop
one_route-AllSound = ((omega arith, refl), tt)

age_rounds-ageless_example :
    Returns
      (λ out. AllSound near out × (ageless out ≡ ageless one_route.routes))
      (age_rounds near 1000 one_route.routes)
age_rounds-ageless_example = age_rounds-ageless near 1000 one_route.routes one_route-AllSound
