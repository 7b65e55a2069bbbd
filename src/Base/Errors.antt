-- ===== src/Base/Errors.antt =====
-- Python exceptions as values. `Outcome A` is the result of a call that may raise.
use mathlib.Core.Path.{◌≡◌, refl}
use mathlib.Core.Logic.{◌⊎◌, inl, inr}
use mathlib.Core.Bool.{Bool, true, false}
use mathlib.Core.Option.{Option, none, some}
use mathlib.Core.List.{List, [], ◌∷◌}

-- The exceptions that the modelled code raises or lets through.
pub data Error : Type 0 where
  type_error value_error invalid_allocations assertion_error index_error key_error attribute_error :
      Error
  missing_measurement data_missing zero_division plain_exception unbound_local : Error
  missing_allocation out_of_closids os_error uncore_event_config : Error

pub data Outcome {ℓ} (A : Type ℓ) : Type ℓ where
  ok : A → Outcome A
  err : Error → Outcome A

-- `assert b`, or `if not b: raise e`.
abbrev pub guard : Bool → Error → Outcome (Unit {0})
guard true exception = ok tt
guard false exception = err exception

infixl 5 ◌>>=◌
abbrev pub ◌>>=◌ {ℓ κ} : {A : Type ℓ} {B : Type κ} → Outcome A → (A → Outcome B) → Outcome B
err raised >>= next = err raised
ok result >>= next = next result

abbrev pub from_option {ℓ} : {A : Type ℓ} → Option A → Error → Outcome A
from_option none e = err e
from_option (some a) e = ok a

-- The first of the two calls is made for its effect.
infixl 5 ◌>>◌
abbrev pub ◌>>◌ {ℓ} : {B : Type ℓ} → Outcome (Unit {0}) → Outcome B → Outcome B
first >> second = first >>= λ _. second

-- `try: m  except value_error: raise e`
abbrev pub on_value_error {ℓ} : {A : Type ℓ} → Outcome A → Error → Outcome A
on_value_error (err Error.value_error) e = err e
on_value_error m e = m

module _ {ℓ κ} {A : Type ℓ} {B : Type κ} where
  abbrev pub map_outcome : (A → B) → Outcome A → Outcome B
  map_outcome f (ok a) = ok (f a)
  map_outcome f (err e) = err e

  pub >>=-eq-ok :
      {y : B} (m : Outcome A) (next : A → Outcome B)
      → (m >>= next) ≡ ok y
      → (x : A) × (m ≡ ok x) × (next x ≡ ok y)
  >>=-eq-ok (err raised) next h = cc
  >>=-eq-ok (ok result) next h = (result, refl, h)

  -- A loop that calls `f` on each element and stops at the first exception.
  abbrev pub traverse : (A → Outcome B) → List A → Outcome (List B)
  traverse f [] = ok []
  traverse f (x ∷ xs) = let rest = traverse f xs in f x >>= λ y. rest >>= λ ys. ok (y ∷ ys)

module _ {ℓ} {A : Type ℓ} where
  pub ok-injective : {a b : A} → ok a ≡ ok b → a ≡ b
  ok-injective h = cc

  -- The same for a loop whose body returns nothing.
  abbrev pub each : (A → Outcome (Unit {0})) → List A → Outcome (Unit {0})
  each f [] = ok tt
  each f (x ∷ xs) = let rest = each f xs in f x >>= λ _. rest

  pub Outcome-cases : (m : Outcome A) → ((a : A) × (m ≡ ok a)) ⊎ ((e : Error) × (m ≡ err e))
  Outcome-cases (ok a) = inl (a, refl)
  Outcome-cases (err e) = inr (e, refl)

  pub on_value_error-ok : (m : Outcome A) (x : Error) {v : A} → on_value_error m x ≡ ok v → m ≡ ok v
  on_value_error-ok (ok v) x h = h
  on_value_error-ok (err Error.type_error) x h = absurd (cc h)
  on_value_error-ok (err Error.value_error) x h = absurd (cc h)
  on_value_error-ok (err Error.invalid_allocations) x h = absurd (cc h)
  on_value_error-ok (err Error.assertion_error) x h = absurd (cc h)
  on_value_error-ok (err Error.index_error) x h = absurd (cc h)
  on_value_error-ok (err Error.key_error) x h = absurd (cc h)
  on_value_error-ok (err Error.attribute_error) x h = absurd (cc h)
  on_value_error-ok (err Error.missing_measurement) x h = absurd (cc h)
  on_value_error-ok (err Error.data_missing) x h = absurd (cc h)
  on_value_error-ok (err Error.zero_division) x h = absurd (cc h)
  on_value_error-ok (err Error.plain_exception) x h = absurd (cc h)
  on_value_error-ok (err Error.unbound_local) x h = absurd (cc h)
  on_value_error-ok (err Error.missing_allocation) x h = absurd (cc h)
  on_value_error-ok (err Error.out_of_closids) x h = absurd (cc h)
  on_value_error-ok (err Error.os_error) x h = absurd (cc h)
  on_value_error-ok (err Error.uncore_event_config) x h = absurd (cc h)

-- A call that returns something with a property, or raises an exception of a kind.
module _ (E : Error → Type 0) where
  abbrev pub Settles : {A : Type 0} → (A → Type 0) → Outcome A → Type 0
  Settles {A = A} Q m = ((a : A) × (m ≡ ok a) × Q a) ⊎ ((e : Error) × E e × (m ≡ err e))

  pub Settles-bind :
      {A B : Type 0} {Q : A → Type 0} (R : B → Type 0) (m : Outcome A) (next : A → Outcome B)
      → Settles Q m
      → ((a : A) → m ≡ ok a → Q a → Settles R (next a))
      → Settles R (m >>= next)
  Settles-bind R m next (inl (a, same, holds)) rest = rw same (rest a same holds)
  Settles-bind R m next (inr (e, raised, same)) rest = rw same (inr (e, raised, refl))
