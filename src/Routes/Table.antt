-- ===== src/Routes/Table.antt =====
-- What `route2_i8_add` of src/routing2.c does to the table of routes.
use sapphire_os.Prelude.{
  ltb, leb, if◌then◌else◌, Bool-cases, length, ◌>>=◌, Returns-value, Returns, ok, returns, ℕ, ◌≤◌,
  ◌<◌, ◌≡◌, refl, ap, ◌∙◌, ◌⊎◌, inl, inr, Bool, true, false, not, ◌||◌, none, some, List, [], ◌∷◌,
  ◌++◌, arith,
}
use sapphire_os.Routes.{
  Route, Neighbors, RouteTable, compare_route_dest, check, replace, route_count, add,
}
use sapphire_os.Routes.Loops.{IsDistinct, check-IsDistinct}

-- no route of the list has the destination of this one
abbrev pub NoneMatch : Route → List Route → Type 0
NoneMatch route [] = Unit
NoneMatch route (r ∷ rest) = (compare_route_dest route r ≡ false) × NoneMatch route rest

-- a route without a loop, whose hops are in its array
pub record LoopFree (route : Route) : Type 0 where
  pub inside : route.hop_count ≤ length route.hops
  pub distinct : IsDistinct route.hop_count route.hops

abbrev pub AllLoopFree : List Route → Type 0
AllLoopFree [] = Unit
AllLoopFree (r ∷ rest) = LoopFree r × AllLoopFree rest

-- a route as it is stored
abbrev pub fresh : Route → Route
fresh route = record route { age = 0 }

-- the limit of the table
abbrev pub limit : RouteTable → ℕ
limit t = if ltb t.max_routes 2 then 2 else t.max_routes

-- what becomes of a new route, and of the table
pub data Added (n : Neighbors) (room : Bool) (route : Route) (t : RouteTable)
    : Bool × RouteTable → Type 0 where
  -- it has a loop, or its next hop is no neighbor
  refused : check n route ≡ ok false → Added n room route t (false, t)
  -- it takes the place of the first route to its destination
  better :
      (front back : List Route) (r : Route)
      → LoopFree route
      → t.routes ≡ front ++ (r ∷ back)
      → NoneMatch route front
      → compare_route_dest route r ≡ true
      → route.cost ≤ r.cost
      → Added n room route t (true, record t { routes = front ++ (fresh route ∷ back) })
  -- the first route to its destination costs less
  worse :
      (front back : List Route) (r : Route)
      → t.routes ≡ front ++ (r ∷ back)
      → NoneMatch route front
      → compare_route_dest route r ≡ true
      → r.cost < route.cost
      → Added n room route t (true, t)
  -- there is no route to its destination, and it goes to the end
  appended :
      LoopFree route
      → NoneMatch route t.routes
      → route_count t.routes < limit t
      → room ≡ true
      → Added n room route t
          (true, record { routes = t.routes ++ (fresh route ∷ []); max_routes = limit t })
  -- or the table is full, or there is no memory for a node
  no_room :
      NoneMatch route t.routes
      → (limit t ≤ route_count t.routes) ⊎ (room ≡ false)
      → Added n room route t (false, record { routes = t.routes; max_routes = limit t })

-- the search for the destination
replace-cases :
    (route : Route) (routes : List Route)
    → ((replace route routes ≡ none) × NoneMatch route routes)
      ⊎ ((front : List Route) × (back : List Route) × (r : Route) × (routes ≡ front ++ (r ∷ back))
          × NoneMatch route front
          × (compare_route_dest route r ≡ true)
          × (replace route routes
              ≡ some (front ++ ((if leb route.cost r.cost then fresh route else r) ∷ back))))
unfolding replace
replace-cases route [] = inl (refl, tt)
replace-cases route (r ∷ rest) = elim (Bool-cases (compare_route_dest route r)) [
  | inl here ↦ inr ([], rest, r, refl, tt, here, rw (replace, here) refl)
  | inr there ↦ elim (replace-cases route rest) [
    | inl (nothing, none_match) ↦ inl (rw (replace, there, nothing) refl, (there, none_match))
    | inr (front, back, s, whole, before, match, is) ↦ inr (
      r ∷ front,
      back,
      s,
      ap (λ l. r ∷ l) whole,
      (there, before),
      match,
      rw (replace, there, is) refl,
    )
  ]
]

pub add-Added :
    (n : Neighbors) (room : Bool) (route : Route) (t : RouteTable)
    → route.hop_count ≤ length route.hops
    → 2 ≤ length route.hops
    → Returns (Added n room route t) (add n room route t)
unfolding add
add-Added n room route t l two =
    let (sound, is, fact) = Returns-value (check-IsDistinct n route l two) in
    elim (Bool-cases sound) [
      | inr bad ↦ rw (is, ◌>>=◌, bad) (returns (refused (is ∙ ap (λ b. ok b) bad)))
      | inl good ↦
          let loop_free : LoopFree route = record { inside = l; distinct = (fact good).0 } in
          elim (replace-cases route t.routes) [
            | inr (front, back, r, whole, before, match, found) ↦
                elim (Bool-cases (leb route.cost r.cost)) [
                  | inl cheaper ↦
                      rw (is, ◌>>=◌, good, found, cheaper)
                        (returns (
                          better front back r loop_free whole before match
                            (ground (arith, cheaper))))
                  | inr dearer ↦
                      rw (is, ◌>>=◌, good, found, dearer)
                        (rw (← whole) (
                          returns (worse front back r whole before match (ground (arith, dearer)))))
                ]
            | inl (nothing, none_match) ↦
                rw (is, ◌>>=◌, good, nothing) (last room none_match loop_free)
          ]
    ]
  where
    below :
        (m : ℕ) (room : Bool)
        → (leb m (route_count t.routes) || not room) ≡ false
        → (route_count t.routes < m) × (room ≡ true)
    below m true e = (ground (arith, e), refl)
    below m false e = absurd (ground (arith, e))

    none_left :
        (m : ℕ) (room : Bool)
        → (leb m (route_count t.routes) || not room) ≡ true
        → (m ≤ route_count t.routes) ⊎ (room ≡ false)
    none_left m true e = inl (ground (arith, e))
    none_left m false e = inr refl

    last :
        (room : Bool)
        → NoneMatch route t.routes
        → LoopFree route
        → Returns (Added n room route t) (elim (leb (limit t) (route_count t.routes) || not room) [
          | true ↦ ok (false, record t { max_routes = limit t })
          | false ↦
              ok (true, record { routes = t.routes ++ (fresh route ∷ []); max_routes = limit t })
        ])
    last room none_match loop_free =
        elim (Bool-cases (leb (limit t) (route_count t.routes) || not room)) [
          | inl full ↦ rw full (returns (no_room none_match (none_left (limit t) room full)))
          | inr some_left ↦ rw some_left (
              let fits = below (limit t) room some_left in
              returns (appended loop_free none_match fits.0 fits.1))
        ]

append-AllLoopFree :
    (front back : List Route) → AllLoopFree front → AllLoopFree back → AllLoopFree (front ++ back)
append-AllLoopFree [] back one two = two
append-AllLoopFree (r ∷ front) back one two = (one.0, append-AllLoopFree front back one.1 two)

split-AllLoopFree :
    (front back : List Route) → AllLoopFree (front ++ back) → AllLoopFree front × AllLoopFree back
split-AllLoopFree [] back all = (tt, all)
split-AllLoopFree (r ∷ front) back all =
    let (one, two) = split-AllLoopFree front back all.1 in ((all.0, one), two)

-- No route that `route2_i8_add` leaves in the table has a loop.
pub Added-AllLoopFree :
    (n : Neighbors) (room : Bool) (route : Route) (t : RouteTable) (out : Bool × RouteTable)
    → Added n room route t out
    → AllLoopFree t.routes
    → AllLoopFree out.1.routes
Added-AllLoopFree n room route t _ (refused bad) all = all
Added-AllLoopFree n room route t _ (better front back r sound whole before match cost) all =
    let (one, two) = split-AllLoopFree front (r ∷ back) (rw (← whole) all) in
    append-AllLoopFree front (fresh route ∷ back) one
      (record { inside = sound.inside; distinct = sound.distinct }, two.1)
Added-AllLoopFree n room route t _ (worse front back r whole before match cost) all = all
Added-AllLoopFree n room route t _ (appended sound none_match few node) all =
    append-AllLoopFree t.routes (fresh route ∷ []) all
      (record { inside = sound.inside; distinct = sound.distinct }, tt)
Added-AllLoopFree n room route t _ (no_room none_match full) all = all
