-- ===== src/Perf/UncoreDerived.antt =====
-- `UncoreDerivedMetricsGenerator._derive` of wca/perf_uncore.py.
use workload_collocation_age.Base.{
  ℕ, zero, suc, Option, none, some, [], ◌∷◌, ◌==◌, if◌then◌else◌, Outcome, ok, err, Error, ◌>>=◌,
  ◌>>◌, guard, from_option,
}
use workload_collocation_age.Base.Eq.{String_eq}
use workload_collocation_age.Base.Int.{pos}
use workload_collocation_age.Base.Dict.{get}
use workload_collocation_age.Base.Number.{Number, whole, add, times, divide}
use workload_collocation_age.Metrics.Names.{MetricName, value}
use workload_collocation_age.Metrics.Metadata.{MetricValue, Metadata}
use workload_collocation_age.Metrics.Tree.{
  LevelKey, LevelKey_eq, Tree, leaf, level, Items, no_items, item, leaf_value, Measurements,
}
use workload_collocation_age.Metrics.Derived.{
  Derive, available, max_depth, combine, on_each_number, subscript, plus, truediv,
}
use workload_collocation_age.Perf.CgroupDerived.{deltas, both, store}

-- The leveled operations with `max_depth`. Where it is 0 they look for a level under a number.
unfoldable pub on_dicts :
    (Tree MetricValue → Tree MetricValue → Outcome (Tree MetricValue))
    → ℕ
    → Tree MetricValue
    → Tree MetricValue
    → Outcome (Tree MetricValue)
on_dicts operation zero a b = err Error.attribute_error
on_dicts operation (suc n) a b = combine operation (suc n) a b

unfoldable pub on_metric :
    (Number → Outcome Number) → ℕ → Tree MetricValue → Outcome (Tree MetricValue)
on_metric operation zero t = err Error.attribute_error
on_metric operation (suc n) t = on_each_number operation (suc n) t

-- Each CAS operation is 64 bytes long.
unfoldable pub uncore_rate : Number → Number → Outcome Number
uncore_rate time_delta v = divide (times v 64) time_delta

unfoldable pub rate_for_upi : Number → Number → Outcome Number
rate_for_upi time_delta v =
    divide v time_delta >>= λ q. divide q (whole (pos 9)) >>= λ r. ok (times r 64)

-- `len(METRICS_METADATA[name].levels)` of three metrics that must agree.
unfoldable pub common_depth : Metadata → Outcome ℕ
common_depth metadata = max_depth metadata (value MetricName.platform_pmm_bandwidth_writes) >>= λ d.
    max_depth metadata (value MetricName.platform_cas_count_reads) >>= λ e.
    guard (d == e) Error.assertion_error
    >> (max_depth metadata (value MetricName.platform_pmm_total_bytes_per_second)
        >>= (λ f. guard (d == f) Error.assertion_error >> ok d))

-- The reads, the writes and their total per second, each stored under its name.
unfoldable pub store_bandwidth :
    ℕ
    → Number
    → MetricName
    → MetricName
    → MetricName
    → Tree MetricValue × Tree MetricValue
    → Measurements MetricValue
    → Outcome (Tree MetricValue × Measurements MetricValue)
store_bandwidth depth time_delta reads writes total d m =
    on_metric (uncore_rate time_delta) depth d.0 >>= λ r.
    on_metric (uncore_rate time_delta) depth d.1 >>= λ w.
    on_dicts plus depth r w >>= λ t. ok (t, store total (store writes (store reads m r) w) t)

-- What one channel adds to the sums over the channels of a socket.
abbrev pub value_at : Tree MetricValue → LevelKey → LevelKey → Outcome Number
value_at t socket channel = subscript t socket >>= λ s. subscript s channel >>= leaf_value

unfoldable pub sum_channels :
    LevelKey
    → Items MetricValue
    → Tree MetricValue
    → Tree MetricValue
    → Number × Number × Number
    → Outcome (Number × Number × Number)
sum_channels socket no_items inserts clockticks sums = ok sums
sum_channels socket (item channel t rest) inserts clockticks (o, i, c) =
    leaf_value t >>= λ occupancy. value_at inserts socket channel >>= λ inserted.
    value_at clockticks socket channel >>= λ ticks.
    sum_channels socket rest inserts clockticks (add o occupancy, add i inserted, add c ticks)

abbrev pub len_items : Items MetricValue → ℕ
len_items no_items = 0
len_items (item k t rest) = suc (len_items rest)

-- (occupancy / inserts) / (clockticks / number_of_channels)
unfoldable pub latency : ℕ → Number × Number × Number → Outcome Number
latency channels (o, i, c) =
    divide o i >>= λ waiting. divide c (whole (pos channels)) >>= λ tick. divide waiting tick

-- `for key in t`: a number cannot be iterated over.
abbrev pub iterated : Tree MetricValue → Outcome (Items MetricValue)
iterated (leaf a) = err Error.type_error
iterated (level is) = ok is

unfoldable pub latencies :
    Items MetricValue → Tree MetricValue → Tree MetricValue → Outcome (Items MetricValue)
latencies no_items inserts clockticks = ok no_items
latencies (item socket t others) inserts clockticks =
    let rest = latencies others inserts clockticks in
    let zero_number = whole (pos 0) in
    iterated t >>= λ channels.
    sum_channels socket channels inserts clockticks (zero_number, zero_number, zero_number)
    >>= λ sums.
        latency (len_items channels) sums >>= λ l. rest >>= λ is. ok (item socket (leaf l) is)

module _ (metadata : Metadata) (prev : Measurements MetricValue) (time_delta : Number) where
  -- The total is bound only where the DRAM metrics are available.
  unfoldable pub derive_dram :
      ℕ → Measurements MetricValue → Outcome (Option (Tree MetricValue) × Measurements MetricValue)
  derive_dram depth m =
      if both metadata prev m MetricName.platform_cas_count_reads
        MetricName.platform_cas_count_writes
      then (deltas metadata prev m MetricName.platform_cas_count_reads
            MetricName.platform_cas_count_writes
          >>= (λ d.
              store_bandwidth depth time_delta MetricName.platform_dram_reads_bytes_per_second
                MetricName.platform_dram_writes_bytes_per_second
                MetricName.platform_dram_total_bytes_per_second d m
              >>= (λ p. ok (some p.0, p.1))))
      else ok (none, m)

  -- The hit ratio is the DRAM share of the total of both.
  unfoldable pub derive_pmm :
      ℕ → Option (Tree MetricValue) × Measurements MetricValue → Outcome (Measurements MetricValue)
  derive_pmm depth (dram, m) =
      if both metadata prev m MetricName.platform_pmm_bandwidth_writes
        MetricName.platform_pmm_bandwidth_reads
      then (deltas metadata prev m MetricName.platform_pmm_bandwidth_reads
            MetricName.platform_pmm_bandwidth_writes
          >>= (λ d.
              store_bandwidth depth time_delta MetricName.platform_pmm_reads_bytes_per_second
                MetricName.platform_pmm_writes_bytes_per_second
                MetricName.platform_pmm_total_bytes_per_second d m
              >>= (λ p. from_option dram Error.unbound_local >>= (λ total_dram.
                  on_dicts plus depth p.0 total_dram >>= (λ total.
                    from_option (get (value MetricName.platform_dram_total_bytes_per_second) p.1)
                      Error.key_error
                    >>= (λ dram_total.
                        on_dicts truediv depth dram_total total
                        >>= (λ hit. ok (store MetricName.platform_dram_hit_ratio p.1 hit))))))))
      else ok m

  unfoldable pub derive_upi : Measurements MetricValue → Outcome (Measurements MetricValue)
  derive_upi m =
      if both metadata prev m MetricName.platform_upi_rxl_flits MetricName.platform_upi_txl_flits
      then (deltas metadata prev m MetricName.platform_upi_rxl_flits
            MetricName.platform_upi_txl_flits
          >>= (λ d. max_depth metadata (value MetricName.platform_upi_txl_flits) >>= (λ depth.
              on_dicts plus depth d.0 d.1 >>= (λ t.
                on_metric (rate_for_upi time_delta) depth t
                >>= (λ b. ok (store MetricName.platform_upi_bandwidth_bytes_per_second m b))))))
      else ok m

  -- The latencies are computed from the measurements themselves.
  unfoldable pub derive_rpq : Measurements MetricValue → Outcome (Measurements MetricValue)
  derive_rpq m =
      if available metadata m prev (
        value MetricName.platform_rpq_inserts
        ∷ value MetricName.platform_rpq_occupancy
        ∷ value MetricName.platform_imc_clockticks
        ∷ [])
      then (from_option (get (value MetricName.platform_rpq_occupancy) m) Error.key_error
          >>= (λ occupancy.
              from_option (get (value MetricName.platform_rpq_inserts) m) Error.key_error
              >>= (λ inserts.
                  from_option (get (value MetricName.platform_imc_clockticks) m) Error.key_error
                  >>= (λ ticks. iterated occupancy >>= (λ sockets.
                      latencies sockets inserts ticks >>= (λ is.
                        ok (store MetricName.platform_rpq_read_latency_seconds m (level is))))))))
      else ok m

unfoldable pub derive : Metadata → Derive
derive metadata measurements prev time_delta = common_depth metadata >>= λ depth.
    derive_dram metadata prev time_delta depth measurements
    >>= derive_pmm metadata prev time_delta depth
    >>= derive_upi metadata prev time_delta
    >>= derive_rpq metadata prev time_delta
