-- ===== src/Routes/Ages.antt =====
-- The ages of the routes: `route_age_thread` of src/routing2.c, a round of it.
use sapphire_os.Prelude.{
  ltb, if◌then◌else◌, Bool-cases, ◌>>=◌, Returns-bind, Returns-mono, Run, Returns, ok,
  out_of_bounds, returns, ℕ, zero, suc, ◌+◌, ◌≤◌, ◌≡◌, refl, ap, ◌∙◌, inl, inr, true, false, Option,
  none, some, List, [], ◌∷◌, arith,
}
use sapphire_os.Routes.{Route, Neighbors, check}

-- `ROUTE2_MAXIMUM_AGE`
abbrev pub maximum_age : ℕ
maximum_age = 120

-- one route of the round: what is left of it. After the purge of an old route the thread goes on with
-- the memory that was released.
unfoldable pub age_route : Neighbors → Route → Run (Option Route)
age_route n r = elim (ltb r.age maximum_age) [
  | false ↦ elim (ltb maximum_age r.age) [ true ↦ out_of_bounds | false ↦ keep r ]
  | true ↦ keep (record r { age = r.age + 1 })
]
  where
    keep : Route → Run (Option Route)
    keep s = do sound ← check n s; ok (if sound then some s else none)

-- a round of `route_age_thread`
unfoldable pub age_round : Neighbors → List Route → Run (List Route)
age_round n [] = ok []
age_round n (r ∷ rest) = do
  this ← age_route n r
  others ← age_round n rest
  ok (elim this [ none ↦ others | some s ↦ s ∷ others ])

-- `k` rounds
unfoldable pub age_rounds : Neighbors → ℕ → List Route → Run (List Route)
age_rounds n zero routes = ok routes
age_rounds n (suc k) routes = do left ← age_round n routes; age_rounds n k left

-- routes that route2_i8_check accepts, not older than the maximum
abbrev pub AllSound : Neighbors → List Route → Type 0
AllSound n [] = Unit
AllSound n (r ∷ rest) = ((r.age ≤ maximum_age) × (check n r ≡ ok true)) × AllSound n rest

-- the routes without their ages
abbrev pub ageless : List Route → List Route
ageless [] = []
ageless (r ∷ rest) = record r { age = 0 } ∷ ageless rest

age_route-keeps :
    (n : Neighbors) (r : Route)
    → r.age ≤ maximum_age
    → check n r ≡ ok true
    → Returns
        (λ out. (a : ℕ) × (a ≤ maximum_age) × (out ≡ some (record r { age = a })))
        (age_route n r)
unfolding age_route check
age_route-keeps n r young sound = elim (Bool-cases (ltb r.age maximum_age)) [
  | inl below ↦
      rw (age_route, below, sound, ◌>>=◌) (returns (r.age + 1, ground (arith, below), refl))
  | inr at ↦
      let not_over : ltb maximum_age r.age ≡ false = ground (arith, young) in
      rw (age_route, at, not_over, sound, ◌>>=◌) (returns (r.age, young, refl))
]

age_round-keeps :
    (n : Neighbors) (routes : List Route)
    → AllSound n routes
    → Returns (λ out. AllSound n out × (ageless out ≡ ageless routes)) (age_round n routes)
unfolding age_round check
age_round-keeps n [] sound = returns (tt, refl)
age_round-keeps n (r ∷ rest) sound =
    Returns-bind (age_route-keeps n r sound.0.0 sound.0.1) λ this (a, young, is).
      Returns-bind (age_round-keeps n rest sound.1) λ others (all, same).
        rw is (returns (((young, sound.0.1), all), ap (λ l. record r { age = 0 } ∷ l) same))

pub age_rounds-ageless :
    (n : Neighbors) (k : ℕ) (routes : List Route)
    → AllSound n routes
    → Returns (λ out. AllSound n out × (ageless out ≡ ageless routes)) (age_rounds n k routes)
unfolding age_rounds
age_rounds-ageless n zero routes sound = returns (sound, refl)
age_rounds-ageless n (suc k) routes sound =
    Returns-bind (age_round-keeps n routes sound) λ left (all, same).
      Returns-mono (age_rounds-ageless n k left all)
        λ out (still, then_same). (still, then_same ∙ same)
