-- ===== src/Scheduler/Tests.antt =====
-- Tests of the scheduler, and its theorems at concrete inputs.
use workload_collocation_age.Base.{
  ℕ, ◌-◌, ◌≡◌, refl, Bool, false, List, [], ◌∷◌, ltb, ok, Outcome, length, none, some, Option, ◌/◌,
  err, Error, if◌then◌else◌, ◌==◌,
}
use workload_collocation_age.Base.Eq.{ℕ_eq}
use workload_collocation_age.Base.Dict.{Dict}
use workload_collocation_age.Scheduler.Filter.{first_pass, second_pass, filter, accept_all}
use workload_collocation_age.Base.Int.{ℤ, pos, ◌+ℤ◌, ◌-ℤ◌, scale, ltb_ℤ, pos_part}
use workload_collocation_age.Scheduler.Resources.{
  calculate_read_write_ratio, ResourceType, ResourceType_eq, Arithmetic, mem, cpu, check_keys,
  map_resources, sum_resources, subtract_resources, subtract_dimension, enough_resources_on_node,
  ordinal,
}
use workload_collocation_age.Scheduler.Fit.{fits_on}
use workload_collocation_age.Scheduler.Fit.Leaves.{fits_on-leaves}
use workload_collocation_age.Scheduler.Filter.Partition.{
  IsPartition, filter-IsPartition, accept_all-IsPartition,
}
use workload_collocation_age.Scheduler.Hierbar.{
  reverse_node_shapes, class_variances, choose_class, fail_others, app_fit_nodes, ClassArithmetic,
  classes_of, merge_shapes, split_shapes, create_new_shape, inverse_shapes,
}
use workload_collocation_age.Scheduler.Hierbar.Capacities.{
  Floats, divide_resources, sum_all, calc_average_resources, resources_to_shape, capacities_of,
  class_variance, average_shape,
}
use workload_collocation_age.Scheduler.Hierbar.Divides.{app_fit_nodes-IsPartition}

-- Nodes below 3 fit.
is_small : ℕ → Bool × ℕ
is_small n = (ltb n 3, n)

filter-IsPartition_example : IsPartition {N = ℕ} {M = ℕ} (1 ∷ 5 ∷ 2 ∷ []) (1 ∷ 2 ∷ []) ((5, 5) ∷ [])
unfolding filter first_pass second_pass accept_all is_small
filter-IsPartition_example =
    filter-IsPartition is_small accept_all accept_all-IsPartition (1 ∷ 5 ∷ 2 ∷ [])
      {r = record { node_names = 1 ∷ 2 ∷ []; failed_nodes = (5, 5) ∷ [] }} refl

-- The nodes 1 and 3 have the shape 7, the node 2 has the shape 4.
abbrev shapes : Dict ℕ ℕ
shapes = (1, 7) ∷ (2, 4) ∷ (3, 7) ∷ []

-- The variance of some nodes is their first; without nodes there is none. The ratio of a shape is the
-- shape, where it is positive, and the average of some nodes has the shape of their number.
first_variance : ℕ → List ℕ → Outcome ℕ
first_variance requested [] = err Error.plain_exception
first_variance requested (n ∷ ns) = ok n

positive_ratio : ℕ → Outcome (Option ℕ)
positive_ratio s = ok (if s == 0 then none else some s)

abbrev class_arithmetic : ClassArithmetic ℕ ℕ ℕ ℕ ℕ
class_arithmetic = record {
  less = ltb;
  variance = first_variance;
  read_write_ratio = positive_ratio;
  average_shape = λ ns. ok (length ns);
  is_empty_shape = λ s. s == 0;
  message = λ best own. own - best;
}

abbrev apps : Dict ℕ ℕ
apps = (9, 0) ∷ []

-- Merging puts the nodes of both shapes, which are above the threshold 3, into one class; a node
-- whose shape has no ratio is lost by it, and raises a `KeyError` where it is to be filtered.
test_best_class :
    (app_fit_nodes class_arithmetic none shapes apps 9 (2 ∷ 3 ∷ []) ≡ ok (3 ∷ [], (2, 1) ∷ []))
    × (app_fit_nodes class_arithmetic (some 3) shapes apps 9 (2 ∷ 3 ∷ []) ≡ ok (2 ∷ 3 ∷ [], []))
    × (app_fit_nodes class_arithmetic (some 3) ((4, 0) ∷ shapes) apps 9 (2 ∷ 4 ∷ [])
        ≡ err Error.key_error)
    × (app_fit_nodes class_arithmetic none shapes apps 8 (2 ∷ []) ≡ err Error.key_error)
unfolding app_fit_nodes classes_of reverse_node_shapes class_variances choose_class fail_others
    first_variance positive_ratio merge_shapes split_shapes create_new_shape inverse_shapes
test_best_class = (refl, refl, refl, refl)

app_fit_nodes-IsPartition_example : IsPartition {N = ℕ} {M = ℕ} (2 ∷ 3 ∷ []) (3 ∷ []) ((2, 1) ∷ [])
app_fit_nodes-IsPartition_example =
    app_fit_nodes-IsPartition class_arithmetic none shapes apps 9 (2 ∷ 3 ∷ []) (3 ∷ [], (2, 1) ∷ [])
      (test_best_class.0)

-- A quotient by 0 raises.
whole_quotient : ℤ → ℤ → Outcome ℤ
whole_quotient x y =
    if pos_part y == 0 then err Error.zero_division else ok (pos (pos_part x / pos_part y))

-- Integers in the place of floats.
abbrev integers : Arithmetic ℤ
integers = record {
  zero_value = pos 0;
  plus = ◌+ℤ◌;
  minus = ◌-ℤ◌;
  times = λ x y. scale x (pos_part y);
  over = whole_quotient;
  scaled_by = scale;
  is_negative = λ x. ltb_ℤ x (pos 0);
}

abbrev resources : ℕ → ℕ → Dict ResourceType ℤ
resources m c = (mem, pos m) ∷ (cpu, pos c) ∷ []

fits_on-leaves_example : ltb_ℤ (pos 8 -ℤ (pos 3 +ℤ pos 5)) (pos 0) ≡ false
unfolding fits_on sum_resources check_keys map_resources enough_resources_on_node subtract_resources
    subtract_dimension ordinal ◌+ℤ◌ ◌-ℤ◌
fits_on-leaves_example =
    fits_on-leaves integers (resources 10 5) (resources 1 3) (resources 64 8) {missing = []} cpu
      {u = pos 5} {q = pos 3} {c = pos 8} refl refl refl refl

-- Whole numbers stand for floats; the deviation stands for the difference of the first two.
difference_of_two : List ℤ → Outcome ℤ
difference_of_two [] = err Error.plain_exception
difference_of_two (x ∷ []) = err Error.plain_exception
difference_of_two (x ∷ (y ∷ vs)) = ok (x -ℤ y)

abbrev whole_floats : Floats ℤ
whole_floats = record {
  arithmetic = integers;
  truncated = λ v. ok v;
  of_int = λ v. v;
  of_count = pos;
  stdev = difference_of_two;
  is_less = ltb_ℤ;
}

abbrev two_nodes : Dict ℕ (Dict ResourceType ℤ)
two_nodes =
    (1, (mem, pos 30) ∷ (cpu, pos 8) ∷ [])
    ∷ (2, (mem, pos 10) ∷ (cpu, pos 12) ∷ [])
    ∷ (3, (mem, pos 0) ∷ (cpu, pos 1) ∷ [])
    ∷ []

-- The average of the first two nodes is 20 of memory and 10 of the processor; a node without memory
-- has no variance.
test_class_variance :
    (class_variance whole_floats two_nodes ((mem, pos 80) ∷ (cpu, pos 10) ∷ []) (1 ∷ 2 ∷ [])
      ≡ ok (pos 3))
    × (average_shape whole_floats two_nodes (1 ∷ 2 ∷ []) ≡ ok ((cpu, pos 10) ∷ (mem, pos 20) ∷ []))
    × (class_variance whole_floats two_nodes ((mem, pos 80) ∷ (cpu, pos 10) ∷ []) (3 ∷ [])
        ≡ err Error.zero_division)
unfolding class_variance average_shape capacities_of calc_average_resources sum_all divide_resources
    calculate_read_write_ratio resources_to_shape whole_quotient difference_of_two sum_resources
    check_keys map_resources ◌+ℤ◌ ◌-ℤ◌ ordinal
test_class_variance = (refl, refl, refl)
