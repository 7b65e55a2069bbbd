-- ===== src/Perf/CgroupDerived.antt =====
-- `PerfCgroupDerivedMetricsGenerator._derive` of wca/perf.py.
pub mod Flat
use workload_collocation_age.Base.{
  ℕ, zero, suc, ◌+◌, ◌-◌, ◌*◌, ◌/◌, ◌%◌, ◌≤◌, ◌<◌, ◌≡◌, refl, sym, ap, ◌∙◌, ◌≢◌, ◌↔◌, ◌⊎◌, inl, inr,
  Bool, true, false, not, ◌&&◌, ◌||◌, Option, none, some, List, [], ◌∷◌, ◌++◌, map, length, All,
  All-map, In, arith, ltb, leb, ◌==◌, ==_iff, if◌then◌else◌, Bool-cases, Option-cases, Outcome, ok,
  err, Error, ◌>>=◌, ◌>>◌, guard, from_option, >>=-eq-ok, ok-injective, traverse, each,
  Outcome-cases, String, append-nil, append_assoc,
}
use workload_collocation_age.Base.Eq.{String_eq}
use workload_collocation_age.Base.Dict.{Dict, get, put, has}
use workload_collocation_age.Base.Number.{Number, subtract, times, divide, is_positive}
use workload_collocation_age.Metrics.Names.{MetricName, value}
use workload_collocation_age.Metrics.Metadata.{MetricValue, Metadata}
use workload_collocation_age.Metrics.Tree.{Tree, leaf, leaf_value, Measurements}
use workload_collocation_age.Metrics.Derived.{
  Derive, available, delta, unpack, max_depth, combine, on_each_number, sub, truediv,
}

-- `measurements[name] = t`
abbrev pub store :
    MetricName → Measurements MetricValue → Tree MetricValue → Measurements MetricValue
store n m t = put (value n) t m

-- `rate(value)`
abbrev pub rate : Number → Number → Outcome Number
rate time_delta v = divide v time_delta

-- The cycles may be 0, and then there is no IPC.
unfoldable pub flat_ipc :
    Measurements MetricValue → Number → Number → Outcome (Measurements MetricValue)
flat_ipc m inst_delta cycles_delta =
    if is_positive cycles_delta
    then (divide inst_delta cycles_delta >>= (λ q. ok (store MetricName.task_ipc m (leaf q))))
    else ok m

unfoldable pub store_ips :
    ℕ → Number → Tree MetricValue → Measurements MetricValue → Outcome (Measurements MetricValue)
store_ips depth time_delta inst_delta m =
    if is_positive time_delta
    then (on_each_number (rate time_delta) depth inst_delta
        >>= (λ ips. ok (store MetricName.task_ips m ips)))
    else ok m

unfoldable pub store_ipc :
    ℕ
    → Tree MetricValue
    → Tree MetricValue
    → Measurements MetricValue
    → Outcome (Measurements MetricValue)
store_ipc zero inst_delta cycles_delta m =
    leaf_value inst_delta >>= λ i. leaf_value cycles_delta >>= λ c. flat_ipc m i c
store_ipc (suc n) inst_delta cycles_delta m =
    combine truediv (suc n) inst_delta cycles_delta >>= λ ipc. ok (store MetricName.task_ipc m ipc)

unfoldable pub times1000 : Number → Outcome Number
times1000 x = ok (times x 1000)

unfoldable pub misses_per_kilo :
    ℕ → Tree MetricValue → Tree MetricValue → Outcome (Tree MetricValue)
misses_per_kilo depth cache_misses_delta inst_delta =
    combine truediv depth cache_misses_delta inst_delta >>= on_each_number times1000 depth

unfoldable pub hit_ratio : ℕ → Tree MetricValue → Tree MetricValue → Outcome (Tree MetricValue)
hit_ratio depth cache_ref_delta cache_misses_delta =
    combine sub depth cache_ref_delta cache_misses_delta >>= λ cache_hits.
    combine truediv depth cache_hits cache_ref_delta

module _ (metadata : Metadata) (prev : Measurements MetricValue) where
  -- The two deltas of a pair of metrics, where both are available.
  abbrev pub deltas :
      Measurements MetricValue
      → MetricName
      → MetricName
      → Outcome (Tree MetricValue × Tree MetricValue)
  deltas m a b = delta metadata m prev (value a ∷ value b ∷ []) >>= unpack

  abbrev pub both : Measurements MetricValue → MetricName → MetricName → Bool
  both m a b = available metadata m prev (value a ∷ value b ∷ [])

  unfoldable pub derive_ipc : Number → Measurements MetricValue → Outcome (Measurements MetricValue)
  derive_ipc time_delta m =
      if both m MetricName.task_instructions MetricName.task_cycles
      then (deltas m MetricName.task_instructions MetricName.task_cycles >>= (λ d.
          max_depth metadata (value MetricName.task_instructions)
          >>= (λ depth. store_ipc depth d.0 d.1 m >>= store_ips depth time_delta d.0)))
      else ok m

  unfoldable pub derive_misses : Measurements MetricValue → Outcome (Measurements MetricValue)
  derive_misses m =
      if both m MetricName.task_instructions MetricName.task_cache_misses
      then (deltas m MetricName.task_instructions MetricName.task_cache_misses >>= (λ d.
          max_depth metadata (value MetricName.task_cache_misses) >>= (λ depth.
            misses_per_kilo depth d.1 d.0
            >>= (λ t. ok (store MetricName.task_cache_misses_per_kilo_instructions m t)))))
      else ok m

  unfoldable pub derive_hits : Measurements MetricValue → Outcome (Measurements MetricValue)
  derive_hits m =
      if both m MetricName.task_cache_references MetricName.task_cache_misses
      then (deltas m MetricName.task_cache_references MetricName.task_cache_misses >>= (λ d.
          max_depth metadata (value MetricName.task_cache_misses) >>= (λ depth.
            hit_ratio depth d.0 d.1 >>= (λ t. ok (store MetricName.task_cache_hit_ratio m t)))))
      else ok m

unfoldable pub derive : Metadata → Derive
derive metadata measurements prev time_delta =
    derive_ipc metadata prev time_delta measurements
    >>= derive_misses metadata prev
    >>= derive_hits metadata prev
