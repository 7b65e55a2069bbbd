-- ===== src/Perf/Tests.antt =====
-- Derived metrics at concrete inputs.
use workload_collocation_age.Base.{ℕ, ◌≡◌, refl, [], ◌∷◌, err, Error}
use workload_collocation_age.Base.Eq.{String_eq}
use workload_collocation_age.Base.Int.{pos, scale, ◌-ℤ◌}
use workload_collocation_age.Base.Number.{Number, whole, subtract}
use workload_collocation_age.Metrics.Names.{MetricName, value}
use workload_collocation_age.Metrics.Metadata.{MetricValue}
use workload_collocation_age.Metrics.Table.{metrics_metadata}
use workload_collocation_age.Metrics.Tree.{leaf, Measurements}
use workload_collocation_age.Metrics.Derived.{max_depth}
use workload_collocation_age.Perf.CgroupDerived.{derive_misses}
use workload_collocation_age.Perf.CgroupDerived.Flat.{IsFlat, derive_misses-zero}

abbrev number : ℕ → Number
number n = whole (pos n)

abbrev counters : ℕ → ℕ → ℕ → Measurements MetricValue
counters instructions cycles misses =
    (value MetricName.task_instructions, leaf (number instructions))
    ∷ (value MetricName.task_cycles, leaf (number cycles))
    ∷ (value MetricName.task_cache_misses, leaf (number misses))
    ∷ []

instructions-IsFlat :
    IsFlat metrics_metadata
      (counters 8 9 3)
      (counters 8 4 1)
      MetricName.task_instructions
      (number 8)
      (number 8)
unfolding max_depth metrics_metadata
instructions-IsFlat = record { flat = refl; current = refl; previous = refl }

cache_misses-IsFlat :
    IsFlat metrics_metadata
      (counters 8 9 3)
      (counters 8 4 1)
      MetricName.task_cache_misses
      (number 3)
      (number 1)
unfolding max_depth metrics_metadata
cache_misses-IsFlat = record { flat = refl; current = refl; previous = refl }

derive_misses-zero_example :
    derive_misses metrics_metadata (counters 8 4 1) (counters 8 9 3) ≡ err Error.zero_division
unfolding subtract scale ◌-ℤ◌
derive_misses-zero_example =
    derive_misses-zero metrics_metadata (counters 8 9 3) (counters 8 4 1) 0 instructions-IsFlat
      cache_misses-IsFlat refl
