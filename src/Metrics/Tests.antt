-- ===== src/Metrics/Tests.antt =====
-- The table of metrics, and the theorems on measurements at concrete inputs.
use workload_collocation_age.Base.{ℕ, ◌≡◌, refl, true, none, List, [], ◌∷◌, map, ok}
use workload_collocation_age.Base.Eq.{String_eq}
use workload_collocation_age.Base.Int.{pos, scale, ◌+ℤ◌, ◌-ℤ◌}
use workload_collocation_age.Base.Dict.{keys}
use workload_collocation_age.Base.Number.{whole, add, subtract}
use workload_collocation_age.Base.Decimal.{show}
use workload_collocation_age.Metrics.Names.{MetricName, value, members}
use workload_collocation_age.Metrics.Metadata.{MetricValue, sum_values}
use workload_collocation_age.Metrics.Table.{metrics_metadata}
use workload_collocation_age.Metrics.Tree.{
  LevelKey, LevelKey_eq, Tree, leaf, level, Items, no_items, item, Measurements, IsDict, AreDicts,
  at_path,
}
use workload_collocation_age.Metrics.Merge.{
  list_items, list_leveled_metrics, list_all, apply_operation, operation_on_leveled_metric,
  merge_values, named, merge_named, all_metrics_names, merge_measurements, operation_of,
}
use workload_collocation_age.Metrics.Merge.Merged.{on_found, nonempty, all_found}
use workload_collocation_age.Metrics.Merge.Named.{merge_measurements-measured, measured}
use workload_collocation_age.Metrics.Export.{
  Metric, create_metric_with_metadata, recursive_create_metric, export_metrics_from_measurements,
}
use workload_collocation_age.Metrics.Export.Labels.{
  export_metrics-exported, exported, all_distinct, rows,
}
use workload_collocation_age.Metrics.Derived.{operation_on_leveled_dicts, sub}
use workload_collocation_age.Metrics.Derived.Paths.{operation_on_leveled_dicts-at_path, result_of}

-- The order in which the module asserts that the table lists the metrics.
keys-metrics_metadata : keys metrics_metadata ≡ map value members
unfolding metrics_metadata
keys-metrics_metadata = refl

all_distinct-metrics_metadata : all_distinct metrics_metadata ≡ true
unfolding metrics_metadata
all_distinct-metrics_metadata = refl

abbrev number : ℕ → Tree MetricValue
number n = leaf (whole (pos n))

abbrev pages : ℕ → ℕ → Items MetricValue
pages a b = item (LevelKey.index 0) (number a) (item (LevelKey.index 1) (number b) no_items)

abbrev first : Measurements MetricValue
first = (value MetricName.task_mem_numa_pages, level (pages 5 7)) ∷ ("unknown", number 1) ∷ []

abbrev second : Measurements MetricValue
second = (value MetricName.task_mem_numa_pages, level (pages 3 0)) ∷ []

abbrev merged : Measurements MetricValue
merged = (value MetricName.task_mem_numa_pages, level (pages 8 7)) ∷ ("unknown", number 1) ∷ []

merge_measurements-measured_example :
    on_found (operation_of metrics_metadata "task_mem_numa_pages") (
      nonempty
        (all_found (LevelKey.index 0 ∷ []) (named "task_mem_numa_pages" (first ∷ second ∷ []))))
    ≡ ok (measured "task_mem_numa_pages" (LevelKey.index 0 ∷ []) merged)
unfolding merge_measurements merge_named merge_values list_all list_leveled_metrics list_items
    apply_operation operation_on_leveled_metric named all_metrics_names metrics_metadata IsDict
    AreDicts sum_values add scale ◌+ℤ◌
merge_measurements-measured_example =
    merge_measurements-measured metrics_metadata (first ∷ second ∷ []) "task_mem_numa_pages"
      (LevelKey.index 0 ∷ []) {r = merged}
      (((refl, tt, (refl, tt, tt)), (tt, tt)), (((refl, tt, (refl, tt, tt)), tt), tt)) refl refl

-- The exported metric of a node of the machine.
abbrev of_node : ℕ → ℕ → Metric
of_node node n =
    create_metric_with_metadata metrics_metadata "task_mem_numa_pages" (number n)
      (("numa_node", show node) ∷ []) none

abbrev first_exported : List Metric
first_exported =
    of_node 0 5
    ∷ of_node 1 7
    ∷ create_metric_with_metadata metrics_metadata "unknown" (number 1) [] none
    ∷ []

export_metrics-exported_example : first_exported ≡ exported metrics_metadata first
unfolding export_metrics_from_measurements recursive_create_metric metrics_metadata rows
export_metrics-exported_example =
    export_metrics-exported metrics_metadata first {metrics = first_exported}
      all_distinct-metrics_metadata refl

operation_on_leveled_dicts-at_path_example :
    at_path (LevelKey.index 1 ∷ []) (level (pages 2 6))
    ≡ result_of sub
        (at_path (LevelKey.index 1 ∷ []) (level (pages 5 7)))
        (at_path (LevelKey.index 1 ∷ []) (level (pages 3 1)))
unfolding operation_on_leveled_dicts AreDicts IsDict subtract scale ◌-ℤ◌
operation_on_leveled_dicts-at_path_example =
    operation_on_leveled_dicts-at_path sub 0 (pages 5 7) (level (pages 3 1)) {r = pages 2 6}
      (LevelKey.index 1) [] (refl, tt, (refl, tt, tt)) refl refl
