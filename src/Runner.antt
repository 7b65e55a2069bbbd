-- ===== src/Runner.antt =====
-- The part of `AllocationRunner._iterate_body` of wca/runners/allocation.py that decides on the new
-- allocations, and `validate_shares_allocation_for_kubernetes`. Values are abstract: their operations
-- are those of the allocation values, which the section takes.
pub mod Decision
mod Tests
use workload_collocation_age.Base.{
  ℕ, zero, suc, ◌+◌, ◌-◌, ◌*◌, ◌/◌, ◌%◌, ◌≤◌, ◌<◌, ◌≡◌, refl, sym, ap, ◌∙◌, ◌≢◌, ◌↔◌, ◌⊎◌, inl, inr,
  Bool, true, false, not, ◌&&◌, ◌||◌, Option, none, some, List, [], ◌∷◌, ◌++◌, map, length, All,
  All-map, In, arith, ltb, leb, ◌==◌, ==_iff, if◌then◌else◌, Bool-cases, Option-cases, Outcome, ok,
  err, Error, ◌>>=◌, ◌>>◌, guard, from_option, >>=-eq-ok, ok-injective, traverse, each,
  Outcome-cases,
}
use workload_collocation_age.Base.Dict.{Dict}

-- `have_tasks_qos_label` and `are_all_tasks_of_single_qos` are given; each flag tells whether the
-- allocation of a task has shares.
abbrev pub any : List Bool → Bool
any [] = false
any (b ∷ bs) = b || any bs

unfoldable pub validate_shares : Bool → Bool → List Bool → Outcome (Unit {0})
validate_shares have_qos_label single_qos have_shares =
    guard (not (have_qos_label && (not single_qos && any have_shares))) Error.invalid_allocations

abbrev pub is_invalid_allocations : Error → Bool
is_invalid_allocations Error.invalid_allocations = true
is_invalid_allocations e = false

pub record Statistics : Type 0 where
  pub allocations_counter : ℕ
  pub allocations_errors : ℕ

module _ {V : Type 0} (validate : V → Outcome (Unit {0}))
    (diff : V → V → Outcome (V × Option V)) where
  -- The variables of the body when the `try` block ends: its target or its exception, and the
  -- changeset that was assigned by then.
  pub record Attempt : Type 0 where
    pub outcome : Outcome V
    pub changeset : Option V

  abbrev pub failed_attempt : Error → Attempt
  failed_attempt e = record { outcome = err e; changeset = none }

  -- The changeset is assigned before the target is validated.
  unfoldable pub validate_target : Outcome (V × Option V) → Attempt
  validate_target (err e) = failed_attempt e
  validate_target (ok (target, changeset)) = record {
    outcome = validate target >>= (λ u. ok target);
    changeset = changeset;
  }

  unfoldable pub validate_new : V → V → Outcome (Unit {0}) → Attempt
  validate_new current new (err e) = failed_attempt e
  validate_new current new (ok u) = validate_target (diff new current)

  unfoldable pub create_new : V → Outcome V → Attempt
  create_new current (err e) = failed_attempt e
  create_new current (ok new) = validate_new current new (validate new)

  unfoldable pub attempt : V → Outcome (Unit {0}) → Outcome V → Attempt
  attempt current (err e) created = failed_attempt e
  attempt current (ok u) created = create_new current created

  -- What an iteration leaves: the target whose metrics are stored, the changeset that is performed,
  -- and the counters.
  pub record Iteration : Type 0 where
    pub target : V
    pub performed : Option V
    pub statistics : Statistics

  -- Only `InvalidAllocations` is caught.
  unfoldable pub handle : ℕ → V → Statistics → Option V → Outcome V → Outcome Iteration
  handle number current s changeset (ok target) = ok (record {
    target = target;
    performed = changeset;
    statistics = record s { allocations_counter = s.allocations_counter + number };
  })
  handle number current s changeset (err e) =
      if is_invalid_allocations e
      then ok (record {
        target = current;
        performed = changeset;
        statistics = record s { allocations_errors = s.allocations_errors + 1 };
      })
      else err e

  -- `number` is the number of new allocations; `created` are their values, or the error of creation.
  unfoldable pub iterate : ℕ → V → Outcome (Unit {0}) → Outcome V → Statistics → Outcome Iteration
  iterate number current shares created s =
      let a = attempt current shares created in handle number current s a.changeset a.outcome
