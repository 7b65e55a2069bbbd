-- ===== src/Scheduler/Resources.antt =====
-- The resource arithmetic of wca/scheduler/algorithms/base.py and `app_fits` of its module fit. The
-- numbers are a type with the operations that the code calls, floats in the source, where a quotient may
-- raise.
use workload_collocation_age.Base.{
  ℕ, ◌≡◌, refl, sym, ap, ◌∙◌, ◌↔◌, Bool, true, false, not, ◌&&◌, ◌||◌, Option, none, some, List, [],
  ◌∷◌, ◌==◌, ==_iff, if◌then◌else◌, Outcome, ok, Error, ◌>>=◌, ◌>>◌, guard, from_option,
  map_outcome,
}
use workload_collocation_age.Base.Eq.{Eq}
use workload_collocation_age.Base.Dict.{Dict, get, put, has, keys}

pub data ResourceType : Type 0 where
  mem cpu membw_write membw_read wss membw_flat : ResourceType

pub record Arithmetic (N : Type 0) : Type 0 where
  pub zero_value : N
  pub plus : N → N → N
  pub minus : N → N → N
  pub times : N → N → N
  pub over : N → N → Outcome N
  pub scaled_by : N → ℕ → N
  pub is_negative : N → Bool

module _ {N : Type 0} ⦃e : Eq ResourceType⦄ (a : Arithmetic N) where
  abbrev pub Resources : Type 0
  Resources = Dict ResourceType N

  abbrev pub includes : List ResourceType → Resources → Bool
  includes [] r = true
  includes (d ∷ ds) r = has d r && includes ds r

  -- `set(a.keys()) == set(b.keys())`
  unfoldable pub check_keys : Resources → Resources → Outcome (Unit {0})
  check_keys x y = guard (includes (keys x) y && includes (keys y) x) Error.value_error

  abbrev pub value_of : ResourceType → Resources → Outcome N
  value_of d r = from_option (get d r) Error.key_error

  -- `{d: f(d, v) for d, v in x.items()}`
  unfoldable pub map_resources : (ResourceType → N → Outcome N) → Resources → Outcome Resources
  map_resources f [] = ok []
  map_resources f ((d, v) ∷ r) = f d v >>= λ w. map_resources f r >>= λ rest. ok ((d, w) ∷ rest)

  unfoldable pub sum_resources : Resources → Resources → Outcome Resources
  sum_resources x y =
      check_keys x y >> map_resources (λ d v. map_outcome (a.plus v) (value_of d y)) x

  -- The used bandwidth counts the other direction at the ratio of the two.
  unfoldable pub subtract_read : N → Resources → N → Outcome N
  subtract_read ratio y v = do
    let read = (← value_of membw_read y)
    let write = (← value_of membw_write y)
    ok (a.minus v (a.plus read (a.times write ratio)))

  unfoldable pub subtract_write : N → Resources → N → Outcome N
  subtract_write ratio y v = do
    let read = (← value_of membw_read y)
    let write = (← value_of membw_write y)
    let share = (← a.over read ratio)
    ok (a.minus v (a.plus write share))

  unfoldable pub subtract_dimension :
      Resources → Resources → Option N → ResourceType → N → Outcome N
  subtract_dimension x y none d v = map_outcome (a.minus v) (value_of d y)
  subtract_dimension x y (some ratio) membw_read v = subtract_read ratio y v
  subtract_dimension x y (some ratio) membw_write v =
      if has membw_read x then subtract_write ratio y v else ok v
  subtract_dimension x y (some ratio) d v = map_outcome (a.minus v) (value_of d y)

  abbrev pub needs_write : Option N → Bool → Bool → Bool
  needs_write none reads writes = true
  needs_write (some ratio) reads writes = not reads || writes

  unfoldable pub subtract_resources : Resources → Resources → Option N → Outcome Resources
  subtract_resources x y ratio =
      check_keys x y
      >> (guard (needs_write ratio (has membw_read x) (has membw_write x)) Error.assertion_error
          >> map_resources (subtract_dimension x y ratio) x)

  unfoldable pub calculate_read_write_ratio : Resources → Outcome (Option N)
  calculate_read_write_ratio capacity =
      if has membw_read capacity
      then guard (has membw_write capacity) Error.assertion_error
        >> (value_of membw_read capacity >>= (λ read.
            value_of membw_write capacity >>= λ write. map_outcome some (a.over read write)))
      else ok none

  -- `used[dim] += apps_spec[app][dim] * count` for every dimension
  unfoldable pub add_app : List ResourceType → Resources → ℕ → Resources → Outcome Resources
  add_app [] spec count used = ok used
  add_app (d ∷ dimensions) spec count used = do
    let before = (← value_of d used)
    let value = (← value_of d spec)
    add_app dimensions spec count (put d (a.plus before (a.scaled_by value count)) used)

  abbrev pub none_used : List ResourceType → Resources
  none_used [] = []
  none_used (d ∷ dimensions) = put d a.zero_value (none_used dimensions)

  module _ {A : Type 0} ⦃ea : Eq A⦄ where
    unfoldable pub add_apps :
        List ResourceType → Dict A ℕ → Dict A Resources → Resources → Outcome Resources
    add_apps dimensions [] apps_spec used = ok used
    add_apps dimensions ((app, count) ∷ apps) apps_spec used =
        from_option (get app apps_spec) Error.key_error >>= λ spec.
        add_app dimensions spec count used >>= add_apps dimensions apps apps_spec

    unfoldable pub used_resources_on_node :
        List ResourceType → Dict A ℕ → Dict A Resources → Outcome Resources
    used_resources_on_node dimensions apps apps_spec =
        add_apps dimensions apps apps_spec (none_used dimensions)

  abbrev pub broken_capacities : Resources → Resources
  broken_capacities [] = []
  broken_capacities ((d, v) ∷ free) =
      let rest = broken_capacities free in if a.is_negative v then (d, v) ∷ rest else rest

  abbrev pub is_empty_dict : Resources → Bool
  is_empty_dict [] = true
  is_empty_dict (item ∷ r) = false

  unfoldable pub enough_resources_on_node :
      Resources → Resources → Option N → Outcome (Bool × Resources × Resources)
  enough_resources_on_node capacity used ratio = subtract_resources capacity used ratio >>= λ free.
      ok (is_empty_dict (broken_capacities free), broken_capacities free, free)

unfoldable pub ordinal : ResourceType → ℕ
ordinal mem = 0
ordinal cpu = 1
ordinal membw_write = 2
ordinal membw_read = 3
ordinal wss = 4
ordinal membw_flat = 5

of_ordinal : ℕ → ResourceType
of_ordinal n =
    if n == 0
    then mem
    else if n == 1
    then cpu
    else if n == 2
    then membw_write
    else if n == 3
    then membw_read
    else if n == 4
    then wss
    else membw_flat

of_ordinal-ordinal : (d : ResourceType) → of_ordinal (ordinal d) ≡ d
unfolding ordinal of_ordinal
of_ordinal-ordinal mem = refl
of_ordinal-ordinal cpu = refl
of_ordinal-ordinal membw_write = refl
of_ordinal-ordinal membw_read = refl
of_ordinal-ordinal wss = refl
of_ordinal-ordinal membw_flat = refl

pub same_ordinal_iff : (c d : ResourceType) → ((ordinal c == ordinal d) ≡ true) ↔ (c ≡ d)
same_ordinal_iff c d = (
  (λ h.
      sym (of_ordinal-ordinal c)
      ∙ ap of_ordinal ((==_iff (ordinal c) (ordinal d)).0 h)
      ∙ of_ordinal-ordinal d),
  (λ h. (==_iff (ordinal c) (ordinal d)).1 (ap ordinal h)),
)

instance abbrev pub ResourceType_eq : Eq ResourceType
ResourceType_eq = record { beq = λ c d. ordinal c == ordinal d; beq_iff = same_ordinal_iff }
