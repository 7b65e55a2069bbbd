-- ===== src/Wss/Tests.antt =====
-- Tests of the working set size, and its theorems at concrete inputs.
use workload_collocation_age.Base.{
  ◌⊎◌, err, Error, ◌≡◌, refl, false, none, some, List, [], ◌∷◌, length, arith, ok,
}
use workload_collocation_age.Base.Int.{pos, negsuc, scale}
use workload_collocation_age.Wss.{
  Config, Wss, half, Reading, Report, initial, get_measurements, measure, measure_stable, settle,
  sample, check_if_known, check_stability, count_stable, mark_stable, finish, is_cyclic_reset,
  is_below, is_tolerated, abs, run,
}
use workload_collocation_age.Wss.Invariant.{IsValid, get_measurements-IsValid, run_total}
use workload_collocation_age.Wss.Latch.{IsLatched, run-IsLatched}
use workload_collocation_age.Wss.Size.{get_measurements-size}

-- One stable cycle is wanted, at a tenth of the traffic, with no reset.
abbrev once : Config
once = record {
  interval = 5;
  wss_reset_cycles = some (pos 0);
  wss_stable_cycles = negsuc 0;
  wss_membw_threshold = some (record { numerator = 1; denominator = 10 });
}

-- The second stable period is about to be completed.
abbrev second : Wss
second = record {
  cycle = 4;
  prev_referenced = some 100;
  prev_membw_counter = some 1000;
  stable_cycles_counter = 0;
  first_stable_referenced = none;
  last_stable_wss = none;
  first_wss = false;
}

abbrev steady : Reading
steady = record { referenced = 110; membw_counter = some 2000 }

abbrev after : Wss
after = record {
  cycle = 5;
  prev_referenced = some 110;
  prev_membw_counter = some 2000;
  stable_cycles_counter = 2;
  first_stable_referenced = some 110;
  last_stable_wss = some (half 220);
  first_wss = false;
}

abbrev report : Report
report = record {
  wss_referenced_bytes = 110;
  working_set_size_bytes = some (half 220);
  cleared = false;
}

test_steady : get_measurements once steady second ≡ ok (after, report)
unfolding get_measurements measure measure_stable settle sample check_if_known check_stability
    count_stable mark_stable finish is_cyclic_reset is_below is_tolerated abs scale
test_steady = refl

abbrev hasty : Config
hasty = record once { interval = 0 }

test_division : get_measurements hasty steady second ≡ err Error.zero_division
unfolding get_measurements measure measure_stable sample check_if_known check_stability abs
test_division = refl

second-IsValid : IsValid once second
second-IsValid = ground arith

get_measurements-IsValid_example :
    ((p : Wss × Report) × (get_measurements once steady second ≡ ok p) × IsValid once p.0)
    ⊎ ((once.interval ≡ 0) × (get_measurements once steady second ≡ err Error.zero_division))
get_measurements-IsValid_example =
    get_measurements-IsValid {c = once} {w = second} steady second-IsValid

get_measurements-size_example :
    (after.last_stable_wss ≡ some (half 220)) × (after.first_wss ≡ false)
get_measurements-size_example =
    get_measurements-size {c = once} {w = second} {p = (after, report)} {size = half 220} steady
      second-IsValid test_steady refl

after-IsLatched : IsLatched once after
unfolding abs
after-IsLatched = record { past = refl }

abbrev quiet_report : Report
quiet_report = record {
  wss_referenced_bytes = 500;
  working_set_size_bytes = some (half 220);
  cleared = false;
}

abbrev later : Wss
later = record after { cycle = 6; prev_referenced = some 500; prev_membw_counter = some 3000 }

run-IsLatched_example : IsLatched once later × (later.last_stable_wss ≡ after.last_stable_wss)
unfolding run get_measurements measure measure_stable settle sample check_if_known check_stability
    count_stable mark_stable finish is_cyclic_reset abs
run-IsLatched_example =
    run-IsLatched {c = once} (record { referenced = 500; membw_counter = some 3000 } ∷ [])
      {w = after} {p = (later, quiet_report ∷ [])} refl after-IsLatched refl

run_total_example :
    (p : Wss × List Report) × (run once (steady ∷ []) initial ≡ ok p)
    × IsValid once p.0
    × (length p.1 ≡ 1)
run_total_example = run_total once (steady ∷ []) (omega arith)
