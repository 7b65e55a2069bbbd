-- ===== src/Metrics/Metadata.antt =====
-- `MetricMetadata` and `METRICS_METADATA` of wca/metrics.py. A metric's value is an exact fraction here.
use workload_collocation_age.Base.{Option, List, [], ◌∷◌, String}
use workload_collocation_age.Base.Int.{pos}
use workload_collocation_age.Base.Number.{Number, whole, add}
use workload_collocation_age.Base.Dict.{Dict}
use workload_collocation_age.Metrics.Names.{MetricType, MetricUnit, MetricGranularity}

abbrev pub MetricValue : Type 0
MetricValue = Number

-- `sum(values)`
unfoldable pub sum_values : List MetricValue → MetricValue
sum_values [] = whole (pos 0)
sum_values (v ∷ values) = add v (sum_values values)

pub record MetricMetadata : Type 0 where
  pub help : String
  pub type : MetricType
  pub unit : Option MetricUnit
  pub source : String
  pub granularity : MetricGranularity
  pub levels : Option (List String)
  pub enabled : String
  pub merge_operation : List MetricValue → MetricValue

-- The constructor with the default merge operation.
abbrev pub described :
    String
    → MetricType
    → Option MetricUnit
    → String
    → MetricGranularity
    → Option (List String)
    → String
    → MetricMetadata
described help type unit source granularity levels enabled = record {
  help = help;
  type = type;
  unit = unit;
  source = source;
  granularity = granularity;
  levels = levels;
  enabled = enabled;
  merge_operation = sum_values;
}

abbrev pub Metadata : Type 0
Metadata = Dict String MetricMetadata
