-- ===== src/Prelude/Outcome.antt =====
-- The outcome of a piece of code: a value, a failed ASSERT, an access outside an array, or a loop
-- whose rounds ran out.
use mathlib.Core.Bool.{Bool, true, false}
use mathlib.Core.Option.{Option, none, some}
use mathlib.Core.Path.{◌≡◌, refl, subst}

pub data Run {ℓ} (A : Type ℓ) : Type ℓ where
  ok : A → Run A
  assert_failed : Run A
  out_of_bounds : Run A
  out_of_fuel : Run A

infixl 5 ◌>>=◌ ◌>>◌
abbrev pub ◌>>=◌ {ℓ κ} : {A : Type ℓ} {B : Type κ} → Run A → (A → Run B) → Run B
assert_failed >>= next = assert_failed
out_of_bounds >>= next = out_of_bounds
out_of_fuel >>= next = out_of_fuel
ok value >>= next = next value

abbrev pub ◌>>◌ {ℓ} : {B : Type ℓ} → Run (Unit {0}) → Run B → Run B
first >> second = first >>= λ done. second

-- `ASSERT( b )`
abbrev pub assert : Bool → Run (Unit {0})
assert true = ok tt
assert false = assert_failed

-- A value read from an array, if the index is inside.
abbrev pub within {ℓ} : {A : Type ℓ} → Option A → Run A
within (some a) = ok a
within none = out_of_bounds

pub >>=-eq-ok {ℓ κ} :
    {A : Type ℓ} {B : Type κ} (run : Run A) (next : A → Run B) {result : B}
    → (run >>= next) ≡ ok result
    → (value : A) × (run ≡ ok value) × (next value ≡ ok result)
>>=-eq-ok assert_failed next e = cc
>>=-eq-ok out_of_bounds next e = cc
>>=-eq-ok out_of_fuel next e = cc
>>=-eq-ok (ok value) next e = (value, refl, e)

-- The run ends with a value that satisfies `P`: no failed ASSERT, no bad access, enough fuel.
pub data Returns {ℓ} {A : Type ℓ} (P : A → Type 0) : Run A → Type ℓ where
  returns : {a : A} → P a → Returns P (ok a)

module _ {ℓ} {A : Type ℓ} {P : A → Type 0} where
  pub Returns-bind {κ} :
      {B : Type κ} {Q : B → Type 0} {r : Run A} {k : A → Run B}
      → Returns P r
      → ((a : A) → P a → Returns Q (k a))
      → Returns Q (r >>= k)
  Returns-bind (returns p) next = next _ p

  pub Returns-mono :
      {Q : A → Type 0} {r : Run A} → Returns P r → ((a : A) → P a → Q a) → Returns Q r
  Returns-mono (returns p) weaken = returns (weaken _ p)

  -- the value itself, for a run that is known
  pub Returns-ok : {a : A} {r : Run A} → r ≡ ok a → P a → Returns P r
  Returns-ok e p = rw e (returns p)

-- a run that returns, taken apart
pub Returns-value {ℓ} :
    {A : Type ℓ} {P : A → Type 0} {r : Run A} → Returns P r → (a : A) × (r ≡ ok a) × P a
Returns-value (returns p) = (_, refl, p)

-- The value, if the run ends with one, satisfies `P`.
pub data IfReturns {ℓ} {A : Type ℓ} (P : A → Type 0) : Run A → Type ℓ where
  if_ok : {a : A} → P a → IfReturns P (ok a)
  if_failed : IfReturns P assert_failed
  if_outside : IfReturns P out_of_bounds
  if_fuel : IfReturns P out_of_fuel

pub IfReturns-bind {ℓ κ} :
    {A : Type ℓ} {B : Type κ} {P : A → Type 0} {Q : B → Type 0} {r : Run A} {k : A → Run B}
    → IfReturns P r
    → ((a : A) → P a → IfReturns Q (k a))
    → IfReturns Q (r >>= k)
IfReturns-bind (if_ok p) next = next _ p
IfReturns-bind if_failed next = if_failed
IfReturns-bind if_outside next = if_outside
IfReturns-bind if_fuel next = if_fuel

-- any run
pub IfReturns-any {ℓ} : {A : Type ℓ} (r : Run A) → IfReturns (λ a. Unit) r
IfReturns-any (ok a) = if_ok tt
IfReturns-any assert_failed = if_failed
IfReturns-any out_of_bounds = if_outside
IfReturns-any out_of_fuel = if_fuel

IfReturns-inside {ℓ} : {A : Type ℓ} {P : A → Type 0} {a : A} → IfReturns P (ok a) → P a
IfReturns-inside (if_ok p) = p

pub IfReturns-value {ℓ} :
    {A : Type ℓ} {P : A → Type 0} {r : Run A} {a : A} → IfReturns P r → r ≡ ok a → P a
IfReturns-value {P = P} p e = IfReturns-inside (subst (λ run. IfReturns P run) e p)
