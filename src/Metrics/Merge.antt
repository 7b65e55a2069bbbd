-- ===== src/Metrics/Merge.antt =====
-- `merge_measurements` of wca/metrics.py, for the measurements of several cgroups of one container.
-- `METRICS_METADATA` may be extended at run time and is an argument. Depths count down: 0 stands for
-- `max_depth - 1`, so a dictionary of depth n is a `Leveled` of n.
mod Listed
pub mod Merged
pub mod Named
use workload_collocation_age.Base.{
  ℕ, zero, suc, ◌+◌, ◌-◌, ◌*◌, ◌/◌, ◌%◌, ◌≤◌, ◌<◌, ◌≡◌, refl, sym, ap, ◌∙◌, ◌≢◌, ◌↔◌, ◌⊎◌, inl, inr,
  Bool, true, false, not, ◌&&◌, ◌||◌, Option, none, some, List, [], ◌∷◌, ◌++◌, map, length, All,
  All-map, In, arith, ltb, leb, ◌==◌, ==_iff, if◌then◌else◌, Bool-cases, Option-cases, Outcome, ok,
  err, Error, ◌>>=◌, ◌>>◌, guard, from_option, >>=-eq-ok, ok-injective, traverse, each,
  Outcome-cases, String,
}
use workload_collocation_age.Base.Eq.{String_eq}
use workload_collocation_age.Base.Dict.{Dict, get, put, has, keys}
use workload_collocation_age.Metrics.Metadata.{MetricValue, MetricMetadata, Metadata, sum_values}
use workload_collocation_age.Metrics.Tree.{
  LevelKey, LevelKey_eq, Tree, leaf, level, Items, no_items, item, Measurements, items, leaf_value,
}
use workload_collocation_age.Scheduler.Filter.{is_in}

-- The aggregate of `_list_leveled_metrics`: as many levels as the metadata say, and then lists.
abbrev pub Leveled : ℕ → Type 0
Leveled zero = Dict LevelKey (List (Tree MetricValue))
Leveled (suc n) = Dict LevelKey (Leveled n)

abbrev pub empty_level : (n : ℕ) → Leveled n
empty_level zero = []
empty_level (suc n) = []

abbrev pub or_empty : (n : ℕ) → Option (Leveled n) → Leveled n
or_empty n none = empty_level n
or_empty n (some s) = s

-- The sub-dictionary of a key, created empty where there is none.
abbrev pub sub_level : (n : ℕ) → LevelKey → Leveled (suc n) → Leveled n
sub_level n k d = or_empty n (get k d)

abbrev pub listed : Option (List (Tree MetricValue)) → List (Tree MetricValue)
listed none = []
listed (some ts) = ts

unfoldable pub list_items : (n : ℕ) → Leveled n → Items MetricValue → Outcome (Leveled n)
list_items zero aggregated no_items = ok aggregated
list_items (suc n) aggregated no_items = ok aggregated
list_items zero aggregated (item k value rest) =
    list_items zero (put k (listed (get k aggregated) ++ value ∷ []) aggregated) rest
list_items (suc n) aggregated (item k (leaf a) rest) = err Error.attribute_error
list_items (suc n) aggregated (item k (level is) rest) =
    list_items n (sub_level n k aggregated) is >>= λ s. list_items (suc n) (put k s aggregated) rest

unfoldable pub list_leveled_metrics : (n : ℕ) → Leveled n → Tree MetricValue → Outcome (Leveled n)
list_leveled_metrics n aggregated new_metric = items new_metric >>= list_items n aggregated

-- `operation(values)`: Python's arithmetic fails on a dictionary.
unfoldable pub apply_operation :
    (List MetricValue → MetricValue) → List (Tree MetricValue) → Outcome (Tree MetricValue)
apply_operation operation ts = traverse leaf_value ts >>= λ values. ok (leaf (operation values))

-- The aggregate with each list replaced by the result for it, as a measurement.
unfoldable pub operation_on_leveled_metric :
    (n : ℕ) → (List MetricValue → MetricValue) → Leveled n → Outcome (Items MetricValue)
operation_on_leveled_metric zero operation [] = ok no_items
operation_on_leveled_metric zero operation ((k, ts) ∷ d) =
    let rest = operation_on_leveled_metric zero operation d in
    apply_operation operation ts >>= λ t. rest >>= λ is. ok (item k t is)
operation_on_leveled_metric (suc n) operation [] = ok no_items
operation_on_leveled_metric (suc n) operation ((k, s) ∷ d) =
    let rest = operation_on_leveled_metric (suc n) operation d in
    operation_on_leveled_metric n operation s >>= λ sub. rest >>= λ is. ok (item k (level sub) is)

abbrev pub operation_of : Metadata → String → List MetricValue → MetricValue
operation_of metadata metric_name = elim (get metric_name metadata) [
  | none ↦ sum_values
  | some m ↦ m.merge_operation
]

-- No levels: the metric is unknown, or its levels are `None` or empty.
abbrev pub levels_or_none : Option (List String) → List String
levels_or_none none = []
levels_or_none (some levels) = levels

abbrev pub levels_in : Option MetricMetadata → List String
levels_in none = []
levels_in (some m) = levels_or_none m.levels

abbrev pub levels_of : Metadata → String → List String
levels_of metadata metric_name = levels_in (get metric_name metadata)

abbrev pub found_first :
    Option (Tree MetricValue) → List (Tree MetricValue) → List (Tree MetricValue)
found_first none ts = ts
found_first (some t) ts = t ∷ ts

-- The values of a metric in the measurements that contain it.
unfoldable pub named : String → List (Measurements MetricValue) → List (Tree MetricValue)
named metric_name [] = []
named metric_name (m ∷ measurements_list) =
    found_first (get metric_name m) (named metric_name measurements_list)

unfoldable pub list_all : (n : ℕ) → Leveled n → List (Tree MetricValue) → Outcome (Leveled n)
list_all n summed [] = ok summed
list_all n summed (t ∷ ts) = list_leveled_metrics n summed t >>= λ s. list_all n s ts

-- The value of one metric over all the measurements.
unfoldable pub merge_values :
    List String
    → (List MetricValue → MetricValue)
    → List (Tree MetricValue)
    → Outcome (Tree MetricValue)
merge_values [] operation ts = apply_operation operation ts
merge_values (l ∷ levels) operation ts =
    list_all (length levels) (empty_level (length levels)) ts >>= λ summed.
    operation_on_leveled_metric (length levels) operation summed >>= λ is. ok (level is)

unfoldable pub merge_named :
    Metadata
    → List (Measurements MetricValue)
    → List String
    → Measurements MetricValue
    → Outcome (Measurements MetricValue)
merge_named metadata measurements_list [] summed = ok summed
merge_named metadata measurements_list (n ∷ names) summed =
    merge_values (levels_of metadata n) (operation_of metadata n) (named n measurements_list)
    >>= λ t. merge_named metadata measurements_list names (put n t summed)

-- The set of all names, here in the order of their first appearance.
abbrev pub add_names : List String → List String → List String
add_names seen [] = seen
add_names seen (n ∷ names) = add_names (if is_in n seen then seen else seen ++ n ∷ []) names

unfoldable pub all_metrics_names : List String → List (Measurements MetricValue) → List String
all_metrics_names seen [] = seen
all_metrics_names seen (m ∷ measurements_list) =
    all_metrics_names (add_names seen (keys m)) measurements_list

unfoldable pub merge_measurements :
    Metadata → List (Measurements MetricValue) → Outcome (Measurements MetricValue)
merge_measurements metadata measurements_list =
    merge_named metadata measurements_list (all_metrics_names [] measurements_list) []
