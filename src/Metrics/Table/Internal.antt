-- ===== src/Metrics/Table/Internal.antt =====
-- A part of `METRICS_METADATA` of wca/metrics.py: the entries from `platform_scaling_uncore_factor` to
-- `platform_nvdimm_write_bandwidth_bytes_per_second`.
use workload_collocation_age.Base.{some, [], ◌∷◌}
use workload_collocation_age.Metrics.Names.{
  MetricName, MetricType, MetricUnit, MetricSource, MetricGranularity, value, source_value,
}
use workload_collocation_age.Metrics.Metadata.{Metadata, described}

abbrev pub internal : Metadata
internal =
    (
      value MetricName.platform_scaling_uncore_factor,
      described
          "Perf uncore subsystem metric scaling factor(value 1.0 is the best, meaning that there is no scaling at all for any uncore metric)"
          MetricType.gauge (some MetricUnit.numeric)
          (source_value MetricSource.perf_subsystem_uncore) MetricGranularity.platform
          (some ("socket" ∷ "pmu_type" ∷ [])) "auto, (depending on uncore_event_names)",
    )
    ∷ (
      value MetricName.platform_zoneinfo,
      described
          "Dynamic metric with many keys based on fields from /proc/zoneinfo grouped by numa_node and zone (only Normal zone)"
          MetricType.gauge (some MetricUnit.numeric) (source_value MetricSource.procfs)
          MetricGranularity.platform (some ("numa_node" ∷ "zone" ∷ "key" ∷ []))
          "yes (zoneinfo option)",
    )
    ∷ (
      value MetricName.platform_last_seen,
      described "Timestamp the information about platform was last collected" MetricType.counter
          (some MetricUnit.timestamp) (source_value MetricSource.internal)
          MetricGranularity.platform (some []) "yes",
    )
    ∷ (
      value MetricName.wca_up,
      described "Health check for WCA returning timestamps of last iteration" MetricType.counter
          (some MetricUnit.timestamp) (source_value MetricSource.internal)
          MetricGranularity.internal (some []) "yes",
    )
    ∷ (
      value MetricName.wca_information,
      described
          "Special metric to cover some meta information like wca_version or cpu_model or platform topology (to be used instead of include_optional_labels)"
          MetricType.gauge (some MetricUnit.numeric) (source_value MetricSource.internal)
          MetricGranularity.internal (some []) "yes",
    )
    ∷ (
      value MetricName.wca_tasks,
      described "Number of discovered tasks" MetricType.gauge (some MetricUnit.numeric)
          (source_value MetricSource.internal) MetricGranularity.internal (some []) "yes",
    )
    ∷ (
      value MetricName.wca_mem_usage_bytes,
      described "Memory usage by WCA itself (getrusage for self and children)." MetricType.gauge
          (some MetricUnit.bytes) (source_value MetricSource.internal) MetricGranularity.internal
          (some []) "yes",
    )
    ∷ (
      value MetricName.wca_duration_seconds,
      described "Internal WCA function call duration metric for profiling" MetricType.gauge
          (some MetricUnit.numeric) (source_value MetricSource.internal) MetricGranularity.internal
          (some []) "yes",
    )
    ∷ (
      value MetricName.wca_duration_seconds_avg,
      described
          "Internal WCA function call duration metric for profiling (average from last restart)"
          MetricType.gauge (some MetricUnit.numeric) (source_value MetricSource.internal)
          MetricGranularity.internal (some []) "yes",
    )
    ∷ (
      value MetricName.platform_capacity_per_nvdimm_bytes,
      described "Platform capacity per NVDIMM" MetricType.gauge (some MetricUnit.bytes)
          (source_value MetricSource.internal) MetricGranularity.platform (some []) "yes",
    )
    ∷ (
      value MetricName.platform_avg_power_per_nvdimm_watts,
      described "Average power used by NVDIMM on the platform" MetricType.gauge
          (some MetricUnit.watts) (source_value MetricSource.internal) MetricGranularity.platform
          (some []) "yes",
    )
    ∷ (
      value MetricName.platform_nvdimm_read_bandwidth_bytes_per_second,
      described "Theoretical reads bandwidth per platform" MetricType.gauge
          (some MetricUnit.bytes_per_second) (source_value MetricSource.internal)
          MetricGranularity.platform (some ("socket" ∷ [])) "yes",
    )
    ∷ (
      value MetricName.platform_nvdimm_write_bandwidth_bytes_per_second,
      described "Theoretical writes bandwidth per platform" MetricType.gauge
          (some MetricUnit.bytes_per_second) (source_value MetricSource.internal)
          MetricGranularity.platform (some ("socket" ∷ [])) "yes",
    )
    ∷ []
