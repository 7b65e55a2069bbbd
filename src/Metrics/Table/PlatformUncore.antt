-- ===== src/Metrics/Table/PlatformUncore.antt =====
-- A part of `METRICS_METADATA` of wca/metrics.py: the entries from `platform_upi_rxl_flits` to
-- `platform_upi_bandwidth_bytes_per_second`.
use workload_collocation_age.Base.{some, [], ◌∷◌}
use workload_collocation_age.Metrics.Names.{
  MetricName, MetricType, MetricUnit, MetricSource, MetricGranularity, value, source_value,
}
use workload_collocation_age.Metrics.Metadata.{Metadata, described}

abbrev pub platform_uncore : Metadata
platform_uncore =
    (
      value MetricName.platform_upi_rxl_flits,
      described "TBD" MetricType.counter (some MetricUnit.numeric)
          (source_value MetricSource.perf_subsystem_uncore) MetricGranularity.platform
          (some ("socket" ∷ "pmu_type" ∷ [])) "no (uncore_event_names)",
    )
    ∷ (
      value MetricName.platform_upi_txl_flits,
      described "TBD" MetricType.counter (some MetricUnit.numeric)
          (source_value MetricSource.perf_subsystem_uncore) MetricGranularity.platform
          (some ("socket" ∷ "pmu_type" ∷ [])) "no (uncore_event_names)",
    )
    ∷ (
      value MetricName.platform_rpq_occupancy,
      described "Pending queue occupancy" MetricType.gauge (some MetricUnit.numeric)
          (source_value MetricSource.perf_subsystem_uncore) MetricGranularity.platform
          (some ("socket" ∷ "pmu_type" ∷ [])) "no (uncore_event_names)",
    )
    ∷ (
      value MetricName.platform_rpq_inserts,
      described "Pending queue allocations" MetricType.gauge (some MetricUnit.numeric)
          (source_value MetricSource.perf_subsystem_uncore) MetricGranularity.platform
          (some ("socket" ∷ "pmu_type" ∷ [])) "no (uncore_event_names)",
    )
    ∷ (
      value MetricName.platform_imc_clockticks,
      described "IMC clockticks" MetricType.counter (some MetricUnit.numeric)
          (source_value MetricSource.perf_subsystem_uncore) MetricGranularity.platform
          (some ("socket" ∷ "pmu_type" ∷ [])) "no (uncore_event_names)",
    )
    ∷ (
      value MetricName.platform_rpq_read_latency_seconds,
      described "Read latency" MetricType.gauge (some MetricUnit.seconds)
          (source_value MetricSource.derived_perf_uncore) MetricGranularity.platform
          (some ("socket" ∷ []))
          "no (uncore_event_names: platform_imc_clockticks, platform_rpq_occupancy, platform_rpq_inserts and set enable_derived_metrics)",
    )
    ∷ (
      value MetricName.platform_pmm_reads_bytes_per_second,
      described "TBD" MetricType.gauge (some MetricUnit.numeric)
          (source_value MetricSource.derived_perf_uncore) MetricGranularity.platform
          (some ("socket" ∷ "pmu_type" ∷ []))
          "no (uncore_event_names: platform_pmm_bandwidth_reads and set enable_derived_metrics)",
    )
    ∷ (
      value MetricName.platform_pmm_writes_bytes_per_second,
      described "TBD" MetricType.gauge (some MetricUnit.numeric)
          (source_value MetricSource.derived_perf_uncore) MetricGranularity.platform
          (some ("socket" ∷ "pmu_type" ∷ []))
          "no (uncore_event_names: platform_pmm_bandwidth_writes and set enable_derived_metrics)",
    )
    ∷ (
      value MetricName.platform_pmm_total_bytes_per_second,
      described "TBD" MetricType.gauge (some MetricUnit.numeric)
          (source_value MetricSource.derived_perf_uncore) MetricGranularity.platform
          (some ("socket" ∷ "pmu_type" ∷ []))
          "no (uncore_event_names: platform_pmm_bandwidth_reads, platform_pmm_bandwidth_writes and set enable_derived_metrics)",
    )
    ∷ (
      value MetricName.platform_dram_reads_bytes_per_second,
      described "TBD" MetricType.gauge (some MetricUnit.numeric)
          (source_value MetricSource.derived_perf_uncore) MetricGranularity.platform
          (some ("socket" ∷ "pmu_type" ∷ []))
          "no (uncore_event_names: platform_cas_count_reads and set enable_derived_metrics)",
    )
    ∷ (
      value MetricName.platform_dram_writes_bytes_per_second,
      described "TBD" MetricType.gauge (some MetricUnit.numeric)
          (source_value MetricSource.derived_perf_uncore) MetricGranularity.platform
          (some ("socket" ∷ "pmu_type" ∷ []))
          "no (uncore_event_names: platform_cas_count_writes and set enable_derived_metrics)",
    )
    ∷ (
      value MetricName.platform_dram_total_bytes_per_second,
      described "TBD" MetricType.gauge (some MetricUnit.numeric)
          (source_value MetricSource.derived_perf_uncore) MetricGranularity.platform
          (some ("socket" ∷ "pmu_type" ∷ []))
          "no (uncore_event_names: platform_cas_count_reads, platform_cas_count_writes and set enable_derived_metrics)",
    )
    ∷ (
      value MetricName.platform_dram_hit_ratio,
      described "TBD" MetricType.gauge (some MetricUnit.numeric)
          (source_value MetricSource.derived_perf_uncore) MetricGranularity.platform
          (some ("socket" ∷ "pmu_type" ∷ []))
          "no (uncore_event_names: platform_cas_count_reads, platform_cas_count_writes and set enable_derived_metrics)",
    )
    ∷ (
      value MetricName.platform_upi_bandwidth_bytes_per_second,
      described "TBD" MetricType.counter (some MetricUnit.numeric)
          (source_value MetricSource.derived_perf_uncore) MetricGranularity.platform
          (some ("socket" ∷ "pmu_type" ∷ []))
          "no (uncore_event_names: platform_upi_txl_flits, platform_upi_rxl_flits and set enable_derived_metrics)",
    )
    ∷ []
