-- ===== src/Metrics/Export.antt =====
-- `Metric.create_metric_with_metadata`, `export_metrics_from_measurements` and `add_metric` of
-- wca/metrics.py.
pub mod Labels
use workload_collocation_age.Base.{
  ℕ, zero, suc, ◌+◌, ◌-◌, ◌*◌, ◌/◌, ◌%◌, ◌≤◌, ◌<◌, ◌≡◌, refl, sym, ap, ◌∙◌, ◌≢◌, ◌↔◌, ◌⊎◌, inl, inr,
  Bool, true, false, not, ◌&&◌, ◌||◌, Option, none, some, List, [], ◌∷◌, ◌++◌, map, length, All,
  All-map, In, arith, ltb, leb, ◌==◌, ==_iff, if◌then◌else◌, Bool-cases, Option-cases, Outcome, ok,
  err, Error, ◌>>=◌, ◌>>◌, guard, from_option, >>=-eq-ok, ok-injective, traverse, each,
  Outcome-cases, String, append-nil, append_assoc,
}
use workload_collocation_age.Base.Text.{Text, codes}
use workload_collocation_age.Base.Decimal.{show}
use workload_collocation_age.Base.Eq.{String_eq}
use workload_collocation_age.Base.Dict.{Dict, get, put}
use workload_collocation_age.Metrics.Names.{MetricType, MetricUnit, MetricGranularity}
use workload_collocation_age.Metrics.Metadata.{MetricValue, MetricMetadata, Metadata}
use workload_collocation_age.Metrics.Tree.{
  LevelKey, Tree, leaf, level, Items, no_items, item, Measurements,
}
use workload_collocation_age.Metrics.Merge.{levels_of}

pub record Metric : Type 0 where
  pub name : String
  pub value : Tree MetricValue
  pub labels : Dict String Text
  pub unit : Option MetricUnit
  pub type : Option MetricType
  pub help : Option String
  pub granularity : Option MetricGranularity

-- The labels and the granularity are as the caller gives them, the rest comes from the metadata,
-- where there are any, and the granularity is replaced by theirs.
unfoldable pub create_metric_with_metadata :
    Metadata → String → Tree MetricValue → Dict String Text → Option MetricGranularity → Metric
create_metric_with_metadata metadata name value labels granularity = elim (get name metadata) [
  | none ↦ record {
    name = name;
    value = value;
    labels = labels;
    unit = none;
    type = none;
    help = none;
    granularity = granularity;
  }
  | some m ↦ record {
    name = name;
    value = value;
    labels = labels;
    unit = m.unit;
    type = some m.type;
    help = some m.help;
    granularity = some m.granularity;
  }
]

-- `str(key)`
abbrev pub str_key : LevelKey → Text
str_key (LevelKey.name s) = codes s
str_key (LevelKey.index n) = show n

-- The levels below a node, from `levels[depth]` on, and the labels collected above it. A number in
-- place of a level has no items, and the error for that is raised anew as a plain exception.
unfoldable pub recursive_create_metric :
    Metadata → String → List String → Tree MetricValue → Dict String Text → Outcome (List Metric)
recursive_create_metric metadata metric_name [] node labels =
    ok (create_metric_with_metadata metadata metric_name node labels none ∷ [])
recursive_create_metric metadata metric_name (l ∷ levels) (leaf a) labels =
    err Error.plain_exception
recursive_create_metric metadata metric_name (l ∷ levels) (level no_items) labels = ok []
recursive_create_metric metadata metric_name (l ∷ levels) (level (item k child rest)) labels =
    recursive_create_metric metadata metric_name levels child (put l (str_key k) labels)
    >>= λ metrics.
        recursive_create_metric metadata metric_name (l ∷ levels) (level rest) labels >>= λ others.
        ok (metrics ++ others)

unfoldable pub export_metrics_from_measurements :
    Metadata → Measurements MetricValue → Outcome (List Metric)
export_metrics_from_measurements metadata [] = ok []
export_metrics_from_measurements metadata ((metric_name, metric_node) ∷ measurements) =
    let rest = export_metrics_from_measurements metadata measurements in
    recursive_create_metric metadata metric_name (levels_of metadata metric_name) metric_node []
    >>= λ metrics. rest >>= λ others. ok (metrics ++ others)

-- `setattr` on the enumeration is not modelled: the table is what the other functions read.
unfoldable pub add_metric : String → MetricMetadata → Metadata → Metadata
add_metric metric_name metric_metadata metadata = put metric_name metric_metadata metadata
