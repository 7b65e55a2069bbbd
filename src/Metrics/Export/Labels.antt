-- ===== src/Metrics/Export/Labels.antt =====
-- The exported metrics are the leaves of the measurements, labelled with the keys on the way there.
use mathlib.Core.List.{map-append}
use workload_collocation_age.Base.{
  ℕ, zero, suc, ◌≡◌, refl, sym, ap, ◌∙◌, Bool, true, false, not, ◌&&◌, Option, none, some, List, [],
  ◌∷◌, ◌++◌, map, length, All, arith, if◌then◌else◌, ok, >>=-eq-ok, ok-injective, String,
  append-nil, append_assoc,
}
use workload_collocation_age.Base.Text.{Text}
use workload_collocation_age.Base.Eq.{◌=?◌, String_eq}
use workload_collocation_age.Base.Dict.{Dict, get, put, has, put-new}
use workload_collocation_age.Metrics.Metadata.{MetricValue, MetricMetadata, Metadata}
use workload_collocation_age.Metrics.Tree.{
  LevelKey, Tree, leaf, level, no_items, item, Measurements,
}
use workload_collocation_age.Metrics.Merge.{levels_of, levels_or_none, levels_in}
use workload_collocation_age.Metrics.Export.{
  Metric, create_metric_with_metadata, str_key, recursive_create_metric,
  export_metrics_from_measurements,
}
use workload_collocation_age.Scheduler.Filter.{is_in}
use workload_collocation_age.Scheduler.Filter.Partition.{has-put}

-- What lies so many levels below a node, each with the path that leads there.
abbrev pub behind : LevelKey → List LevelKey × Tree MetricValue → List LevelKey × Tree MetricValue
behind k row = (k ∷ row.0, row.1)

unfoldable pub rows : ℕ → Tree MetricValue → List (List LevelKey × Tree MetricValue)
rows zero t = ([], t) ∷ []
rows (suc n) (leaf a) = []
rows (suc n) (level no_items) = []
rows (suc n) (level (item k child rest)) =
    map (behind k) (rows n child) ++ rows (suc n) (level rest)

abbrev pub labelled : List String → List LevelKey → Dict String Text
labelled [] path = []
labelled (l ∷ levels) [] = []
labelled (l ∷ levels) (k ∷ path) = (l, str_key k) ∷ labelled levels path

abbrev pub metric_of :
    Metadata → String → List String → Dict String Text → List LevelKey × Tree MetricValue → Metric
metric_of md n levels above row =
    create_metric_with_metadata md n row.1 (above ++ labelled levels row.0) none

abbrev pub exported : Metadata → Measurements MetricValue → List Metric
exported md [] = []
exported md ((n, t) ∷ m) =
    map (metric_of md n (levels_of md n) []) (rows (length (levels_of md n)) t) ++ exported md m

-- No level is named twice.
abbrev pub distinct : List String → Bool
distinct [] = true
distinct (l ∷ levels) = not (is_in l levels) && distinct levels

abbrev pub all_distinct : Metadata → Bool
all_distinct [] = true
all_distinct ((n, m) ∷ md) = distinct (levels_or_none m.levels) && all_distinct md

levels_of-distinct :
    (md : Metadata) (n : String) → all_distinct md ≡ true → distinct (levels_of md n) ≡ true
levels_of-distinct [] n h = refl
levels_of-distinct ((j, m) ∷ md) n h =
    choose (j =? n) (get n md) (ground arith) (levels_of-distinct md n (ground arith))
  where
    choose :
        (b : Bool) (o : Option MetricMetadata)
        → distinct (levels_or_none m.levels) ≡ true
        → distinct (levels_in o) ≡ true
        → distinct (levels_in (if b then some m else o)) ≡ true
    choose true o here there = here
    choose false o here there = there

-- The levels that are not among the labels.
abbrev AreNew : List String → Dict String Text → Type 0
AreNew levels above = All (λ l. has l above ≡ false) levels

AreNew-put :
    (levels : List String) (above : Dict String Text) (l : String) (v : Text)
    → AreNew levels above
    → is_in l levels ≡ false
    → AreNew levels (put l v above)
AreNew-put [] above l v new h = tt
AreNew-put (j ∷ levels) above l v (first, new) h = (
  ground (arith, has-put j l v above, String_eq.beq_iff j l, String_eq.beq_iff l j),
  AreNew-put levels above l v new (ground arith),
)

map-behind :
    (md : Metadata) (n : String) (l : String) (levels : List String) (above : Dict String Text)
    (k : LevelKey) (found : List (List LevelKey × Tree MetricValue))
    → map (metric_of md n levels (above ++ (l, str_key k) ∷ [])) found
      ≡ map (metric_of md n (l ∷ levels) above) (map (behind k) found)
map-behind md n l levels above k [] = refl
map-behind md n l levels above k ((path, v) ∷ found) =
    ap
      (λ labels.
        create_metric_with_metadata md n v labels none
        ∷ map (metric_of md n levels (above ++ (l, str_key k) ∷ [])) found)
      (append_assoc above ((l, str_key k) ∷ []) (labelled levels path))
    ∙ ap (λ ms. metric_of md n (l ∷ levels) above (behind k (path, v)) ∷ ms)
        (map-behind md n l levels above k found)

recursive_create_metric-rows :
    (md : Metadata) (n : String) (levels : List String) (t : Tree MetricValue)
    (above : Dict String Text) {ms : List Metric}
    → distinct levels ≡ true
    → AreNew levels above
    → recursive_create_metric md n levels t above ≡ ok ms
    → ms ≡ map (metric_of md n levels above) (rows (length levels) t)
unfolding recursive_create_metric rows
recursive_create_metric-rows md n [] t above apart new h =
    sym (ok-injective h)
    ∙ ap (λ labels. create_metric_with_metadata md n t labels none ∷ []) (sym (append-nil above))
recursive_create_metric-rows md n (l ∷ levels) (leaf a) above apart new h = absurd (cc h)
recursive_create_metric-rows md n (l ∷ levels) (level no_items) above apart new h =
    sym (ok-injective h)
recursive_create_metric-rows md n (l ∷ levels) (level (item k t rest)) above apart (first, new) h =
    let (metrics, here, h') =
      >>=-eq-ok (recursive_create_metric md n levels t (put l (str_key k) above)) _ h in
    let (others, there, whole) =
      >>=-eq-ok (recursive_create_metric md n (l ∷ levels) (level rest) above) _ h' in
    sym (ok-injective whole)
    ∙ ap (λ ms. ms ++ others)
        (recursive_create_metric-rows md n levels t (put l (str_key k) above) (ground arith)
            (AreNew-put levels above l (str_key k) new (ground arith)) here
          ∙ ap (λ labels. map (metric_of md n levels labels) (rows (length levels) t))
              (put-new l (str_key k) above first)
          ∙ map-behind md n l levels above k (rows (length levels) t))
    ∙ ap
        (λ ms.
          map (metric_of md n (l ∷ levels) above) (map (behind k) (rows (length levels) t)) ++ ms)
        (recursive_create_metric-rows md n (l ∷ levels) (level rest) above apart (first, new) there)
    ∙ sym (
        map-append (metric_of md n (l ∷ levels) above) (map (behind k) (rows (length levels) t))
          (rows (length (l ∷ levels)) (level rest)))

AreNew-none : (levels : List String) → AreNew levels []
AreNew-none [] = tt
AreNew-none (l ∷ levels) = (refl, AreNew-none levels)

-- If no metadata name a level twice, an export that succeeds gives, metric by metric, one metric for
-- every node as deep as the metric has levels, in their order, with the node as its value and one
-- label for each level: the key on the way to the node, as text.
pub export_metrics-exported :
    (md : Metadata) (m : Measurements MetricValue) {metrics : List Metric}
    → all_distinct md ≡ true
    → export_metrics_from_measurements md m ≡ ok metrics
    → metrics ≡ exported md m
unfolding export_metrics_from_measurements
export_metrics-exported md [] apart h = sym (ok-injective h)
export_metrics-exported md ((n, t) ∷ m) apart h =
    let levels = levels_of md n in
    let (metrics, here, h') = >>=-eq-ok (recursive_create_metric md n levels t []) _ h in
    let (others, there, whole) = >>=-eq-ok (export_metrics_from_measurements md m) _ h' in
    sym (ok-injective whole)
    ∙ ap (λ ms. ms ++ others)
        (recursive_create_metric-rows md n levels t [] (levels_of-distinct md n apart)
          (AreNew-none levels) here)
    ∙ ap (λ ms. map (metric_of md n levels []) (rows (length levels) t) ++ ms)
        (export_metrics-exported md m apart there)
