-- ===== src/Allocations.antt =====
-- `AllocationsDict.calculate_changeset` and `BoxedNumeric` of wca/allocations.py. The values of a
-- dictionary are given by an interface, which a dictionary of them implements again.
pub mod Settles
pub mod Unchanged
pub mod Numeric
mod Tests
use workload_collocation_age.Base.{
  ℕ, zero, suc, ◌+◌, ◌-◌, ◌*◌, ◌/◌, ◌%◌, ◌≤◌, ◌<◌, ◌≡◌, refl, sym, ap, ◌∙◌, ◌≢◌, ◌↔◌, ◌⊎◌, inl, inr,
  Bool, true, false, not, ◌&&◌, ◌||◌, Option, none, some, List, [], ◌∷◌, ◌++◌, map, length, All, In,
  arith, ltb, leb, ◌==◌, ==_iff, if◌then◌else◌, Bool-cases, Option-cases, Outcome, ok, err, Error,
  ◌>>=◌, ◌>>◌, guard, from_option, >>=-eq-ok, ok-injective, traverse, each, Outcome-cases,
}
use workload_collocation_age.Base.Eq.{Eq, ◌=?◌}
use workload_collocation_age.Base.Dict.{Dict, get, put, has}

-- `AllocationValue.calculate_changeset`, from the new and the current value to the target and the
-- changeset.
abbrev pub Diff : Type 0 → Type 0
Diff V = V → V → Outcome (V × Option V)

-- The pair of a key that has no current value, or of one that has.
abbrev pub diff_value : {V : Type 0} → Diff V → V → Option V → Outcome (V × Option V)
diff_value diff new none = ok (new, some new)
diff_value diff new (some current) = diff new current

-- `if not changeset: changeset = None`
abbrev pub or_none : {K V : Type 0} → Dict K V → Option (Dict K V)
or_none [] = none
or_none (item ∷ items) = some (item ∷ items)

module _ {K V : Type 0} ⦃e : Eq K⦄ where
  abbrev pub put_some : K → Option V → Dict K V → Dict K V
  put_some k none d = d
  put_some k (some v) d = put k v d

  -- The loop over the items, with the target and the changeset so far.
  unfoldable pub merge_items :
      Diff V → Dict K V → Dict K V → Dict K V → Dict K V → Outcome (Dict K V × Dict K V)
  merge_items diff [] current target changeset = ok (target, changeset)
  merge_items diff ((k, v) ∷ items) current target changeset =
      diff_value diff v (get k current) >>= λ p.
      merge_items diff items current (put k p.0 target) (put_some k p.1 changeset)

  unfoldable pub calculate_changeset : Diff V → Diff (Dict K V)
  calculate_changeset diff new current =
      merge_items diff new current current [] >>= λ p. ok (p.0, or_none p.1)

  -- The keys of a dictionary are distinct.
  abbrev pub IsDistinct : Dict K V → Type 0
  IsDistinct [] = Unit
  IsDistinct ((k, v) ∷ d) = (has k d ≡ false) × IsDistinct d

-- A method `calculate_changeset` that has nothing left to change once it has been applied, for the
-- new values that it accepts.
pub record Settling {V : Type 0} (diff : Diff V) : Type 1 where
  pub Accepts : V → Type 0
  pub settles :
      {t : V} {d : Option V} (v c : V)
      → Accepts v
      → diff v c ≡ ok (t, d)
      → (t' : V) × (diff v t ≡ ok (t', none))
  pub same : (v : V) → Accepts v → (t' : V) × (diff v v ≡ ok (t', none))

-- `BoxedNumeric.calculate_changeset`; `isclose` is that of the module math, at the sensitivity.
unfoldable pub diff_numeric : {N : Type 0} → (N → N → Bool) → Diff N
diff_numeric isclose v c = if isclose v c then ok (c, none) else ok (v, some v)

-- `BoxedNumeric.validate`; `less` is the order on the numbers, `None` no bound.
abbrev pub exceeds : {N : Type 0} → (N → N → Bool) → Option N → N → Bool
exceeds less none n = false
exceeds less (some bound) n = less bound n

unfoldable pub validate_numeric :
    {N : Type 0} → (N → N → Bool) → Option N → Option N → N → Outcome (Unit {0})
validate_numeric less min_value max_value n =
    guard (not (exceeds (λ a b. less b a) min_value n || exceeds less max_value n))
      Error.invalid_allocations
