-- ===== src/Runner/Tests.antt =====
-- Tests of the runner's decision, and its theorems at a concrete input.
use workload_collocation_age.Base.{ℕ, ◌+◌, ◌≡◌, refl, Option, some, ltb, Outcome, ok, Error, guard}
use workload_collocation_age.Runner.{
  Statistics, Iteration, validate_target, validate_new, create_new, attempt, handle, iterate,
}
use workload_collocation_age.Runner.Decision.{
  IsApproved, IsCounted, iterate-performed, iterate-IsCounted,
}

-- Values are numbers below 10; the target of a change is the sum.
below_ten : ℕ → Outcome (Unit {0})
below_ten n = guard (ltb n 10) Error.invalid_allocations

add_up : ℕ → ℕ → Outcome (ℕ × Option ℕ)
add_up new current = ok (new + current, some new)

abbrev start : Statistics
start = record { allocations_counter = 0; allocations_errors = 0 }

abbrev rejected_target : Iteration below_ten add_up
rejected_target = record {
  target = 7;
  performed = some 5;
  statistics = record { allocations_counter = 0; allocations_errors = 1 };
}

-- The target 12 is invalid: the error is counted, and the changeset is performed all the same.
test_rejected_target : iterate below_ten add_up 1 7 (ok tt) (ok 5) start ≡ ok rejected_target
unfolding iterate attempt create_new validate_new validate_target handle below_ten add_up
test_rejected_target = refl

iterate-performed_example : IsApproved below_ten add_up 7 (ok tt) (ok 5) 5
iterate-performed_example =
    iterate-performed below_ten add_up 1 7 (ok tt) (ok 5) start {it = rejected_target} {c = 5}
      test_rejected_target refl

iterate-IsCounted_example : IsCounted below_ten add_up 1 7 start rejected_target
iterate-IsCounted_example =
    iterate-IsCounted below_ten add_up 1 7 (ok tt) (ok 5) start {it = rejected_target}
      test_rejected_target
