-- ===== src/Metrics/Derived.antt =====
-- `BaseDerivedMetricsGenerator` of wca/metrics.py and the operations on leveled dictionaries that
-- derived metrics are computed with. The measurements, the clock and `_derive` of the subclass are
-- arguments. Depths count down, as in the merging of measurements.
pub mod Paths
use workload_collocation_age.Base.{
  ℕ, zero, suc, ◌+◌, ◌-◌, ◌*◌, ◌/◌, ◌%◌, ◌≤◌, ◌<◌, ◌≡◌, refl, sym, ap, ◌∙◌, ◌≢◌, ◌↔◌, ◌⊎◌, inl, inr,
  Bool, true, false, not, ◌&&◌, ◌||◌, Option, none, some, List, [], ◌∷◌, ◌++◌, map, length, All,
  All-map, In, arith, ltb, leb, ◌==◌, ==_iff, if◌then◌else◌, Bool-cases, Option-cases, Outcome, ok,
  err, Error, ◌>>=◌, ◌>>◌, guard, from_option, >>=-eq-ok, ok-injective, traverse, each,
  Outcome-cases, String, append-nil, append_assoc,
}
use workload_collocation_age.Base.Eq.{String_eq}
use workload_collocation_age.Base.Dict.{Dict, get, put, has}
use workload_collocation_age.Base.Number.{Number, add, subtract, times, divide}
use workload_collocation_age.Metrics.Metadata.{MetricValue, MetricMetadata, Metadata}
use workload_collocation_age.Metrics.Tree.{
  LevelKey, Tree, leaf, level, Items, no_items, item, child, items, leaf_value, Measurements,
}
use workload_collocation_age.Metrics.Merge.{levels_of}

-- `b[key]`: a number has no items to index.
abbrev pub subscript : Tree MetricValue → LevelKey → Outcome (Tree MetricValue)
subscript (leaf a) k = err Error.type_error
subscript (level is) k = from_option (child k is) Error.key_error

-- Operators on measurements: `-`, `+` and `/` want numbers.
abbrev pub sub : Tree MetricValue → Tree MetricValue → Outcome (Tree MetricValue)
sub (leaf a) (leaf b) = ok (leaf (subtract a b))
sub (leaf a) (level b) = err Error.type_error
sub (level a) b = err Error.type_error

abbrev pub plus : Tree MetricValue → Tree MetricValue → Outcome (Tree MetricValue)
plus (leaf a) (leaf b) = ok (leaf (add a b))
plus (leaf a) (level b) = err Error.type_error
plus (level a) b = err Error.type_error

abbrev pub truediv : Tree MetricValue → Tree MetricValue → Outcome (Tree MetricValue)
truediv (leaf a) (leaf b) = divide a b >>= λ q. ok (leaf q)
truediv (leaf a) (level b) = err Error.type_error
truediv (level a) b = err Error.type_error

-- `try: operation_result[key] = ...  except ZeroDivisionError`: the key is left out.
abbrev pub kept :
    Outcome (Tree MetricValue)
    → LevelKey
    → Outcome (Items MetricValue)
    → Outcome (Items MetricValue)
kept (ok t) k rest = rest >>= λ is. ok (item k t is)
kept (err Error.zero_division) k rest = rest
kept (err e) k rest = err e

unfoldable pub operation_on_leveled_dicts :
    (Tree MetricValue → Tree MetricValue → Outcome (Tree MetricValue))
    → (n : ℕ) → Items MetricValue
    → Tree MetricValue
    → Outcome (Items MetricValue)
operation_on_leveled_dicts operation zero no_items b = ok no_items
operation_on_leveled_dicts operation (suc n) no_items b = ok no_items
operation_on_leveled_dicts operation zero (item k a others) b =
    let rest = operation_on_leveled_dicts operation zero others b in
    kept (subscript b k >>= operation a) k rest
operation_on_leveled_dicts operation (suc n) (item k (leaf a) others) b =
    subscript b k >>= λ _. err Error.attribute_error
operation_on_leveled_dicts operation (suc n) (item k (level is) others) b =
    let rest = operation_on_leveled_dicts operation (suc n) others b in
    subscript b k >>= λ sub_b. operation_on_leveled_dicts operation n is sub_b >>= λ s.
    rest >>= λ result. ok (item k (level s) result)

-- The call of it with `max_depth` for two values of a metric: 1 or more, and 0 for unlevelled ones.
unfoldable pub combine :
    (Tree MetricValue → Tree MetricValue → Outcome (Tree MetricValue))
    → ℕ
    → Tree MetricValue
    → Tree MetricValue
    → Outcome (Tree MetricValue)
combine operation zero a b = operation a b
combine operation (suc n) a b =
    items a >>= λ is. operation_on_leveled_dicts operation n is b >>= λ s. ok (level s)

-- The state between two measurements: `_prev_measurements` and `_prev_ts`.
pub record Generator : Type 0 where
  pub prev_measurements : Option (Measurements MetricValue)
  pub prev_ts : Option Number

unfoldable pub init_generator : Generator
init_generator = record { prev_measurements = none; prev_ts = none }

module _ (metadata : Metadata) (measurements prev : Measurements MetricValue) where
  -- `available(*names)`
  unfoldable pub available : List String → Bool
  available [] = true
  available (n ∷ names) = has n measurements && has n prev && available names

  unfoldable pub delta_of : String → Outcome (Tree MetricValue)
  delta_of n = from_option (get n measurements) Error.key_error >>= λ a.
      from_option (get n prev) Error.key_error >>= λ b.
      combine sub (length (levels_of metadata n)) a b

  -- `delta(*names)`, which is the number 0 where a name is not available
  unfoldable pub delta : List String → Outcome (Option (List (Tree MetricValue)))
  delta names =
      if available names then (traverse delta_of names >>= (λ ds. ok (some ds))) else ok none

-- What a subclass derives: it is given the measurements, the earlier ones that `delta` and
-- `available` read, and the time between them.
abbrev pub Derive : Type 0
Derive =
    Measurements MetricValue
    → Measurements MetricValue
    → Number
    → Outcome (Measurements MetricValue)

abbrev pub time_since : Number → Option Number → Outcome Number
time_since now none = err Error.type_error
time_since now (some before) = ok (subtract now before)

unfoldable pub extended :
    Derive → Generator → Measurements MetricValue → Number → Outcome (Measurements MetricValue)
extended derive g measurements now = elim g.prev_measurements [
  | none ↦ ok measurements
  | some prev ↦ time_since now g.prev_ts >>= derive measurements prev
]

-- The measurements are kept with what was derived from them: it is the same dictionary.
unfoldable pub get_measurements_with_derived_metrics :
    Derive
    → Generator
    → Measurements MetricValue
    → Number
    → Outcome (Measurements MetricValue × Generator)
get_measurements_with_derived_metrics derive g measurements now =
    extended derive g measurements now >>= λ m.
    ok (m, record { prev_measurements = some m; prev_ts = some now })

-- `_operation_on_leveled_metric` on the numbers of a measurement.
unfoldable pub on_leveled_numbers :
    (Number → Outcome Number) → (n : ℕ) → Items MetricValue → Outcome (Items MetricValue)
on_leveled_numbers operation zero no_items = ok no_items
on_leveled_numbers operation (suc n) no_items = ok no_items
on_leveled_numbers operation zero (item k t others) =
    let rest = on_leveled_numbers operation zero others in
    leaf_value t >>= λ v. operation v >>= λ r. rest >>= λ is. ok (item k (leaf r) is)
on_leveled_numbers operation (suc n) (item k (leaf a) others) = err Error.attribute_error
on_leveled_numbers operation (suc n) (item k (level is) others) =
    let rest = on_leveled_numbers operation (suc n) others in
    on_leveled_numbers operation n is >>= λ s. rest >>= λ result. ok (item k (level s) result)

-- The same with `max_depth`, which is 1 or more in its calls: at depth 0 the code has no call of it.
unfoldable pub on_each_number :
    (Number → Outcome Number) → ℕ → Tree MetricValue → Outcome (Tree MetricValue)
on_each_number operation zero t = leaf_value t >>= λ v. operation v >>= λ r. ok (leaf r)
on_each_number operation (suc n) t =
    items t >>= λ is. on_leveled_numbers operation n is >>= λ s. ok (level s)

-- `len(METRICS_METADATA[name].levels)`
abbrev pub len_levels : Option (List String) → Outcome ℕ
len_levels none = err Error.type_error
len_levels (some levels) = ok (length levels)

unfoldable pub max_depth : Metadata → String → Outcome ℕ
max_depth metadata n = from_option (get n metadata) Error.key_error >>= λ m. len_levels m.levels

-- `a, b = delta(...)`: a number cannot be unpacked.
abbrev pub unpack : Option (List (Tree MetricValue)) → Outcome (Tree MetricValue × Tree MetricValue)
unpack none = err Error.type_error
unpack (some (a ∷ (b ∷ []))) = ok (a, b)
unpack (some ds) = err Error.value_error
