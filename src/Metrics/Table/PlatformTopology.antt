-- ===== src/Metrics/Table/PlatformTopology.antt =====
-- A part of `METRICS_METADATA` of wca/metrics.py: the entries from `task_requested_cpus` to
-- `platform_mem_usage_bytes`.
use workload_collocation_age.Base.{some, [], ◌∷◌}
use workload_collocation_age.Metrics.Names.{
  MetricName, MetricType, MetricUnit, MetricSource, MetricGranularity, value, source_value,
}
use workload_collocation_age.Metrics.Metadata.{Metadata, described}

abbrev pub platform_topology : Metadata
platform_topology =
    (
      value MetricName.task_requested_cpus,
      described "Tasks resources cpus initial requests." MetricType.gauge (some MetricUnit.numeric)
          (source_value MetricSource.orchestrator) MetricGranularity.task (some []) "yes",
    )
    ∷ (
      value MetricName.task_requested_mem_bytes,
      described "Tasks resources memory initial requests." MetricType.gauge (some MetricUnit.bytes)
          (source_value MetricSource.orchestrator) MetricGranularity.task (some []) "yes",
    )
    ∷ (
      value MetricName.task_last_seen,
      described "Time the task was last seen." MetricType.counter (some MetricUnit.timestamp)
          (source_value MetricSource.internal) MetricGranularity.task (some []) "yes",
    )
    ∷ (
      value MetricName.task_up,
      described "Always returns 1 for running task." MetricType.counter (some MetricUnit.numeric)
          (source_value MetricSource.internal) MetricGranularity.task (some []) "yes",
    )
    ∷ (
      value MetricName.task_subcontainers,
      described "Returns number of Kubernetes Pod Containers or 0 for others." MetricType.gauge
          (some MetricUnit.numeric) (source_value MetricSource.internal) MetricGranularity.task
          (some []) "yes",
    )
    ∷ (
      value MetricName.platform_topology_cores,
      described "Platform information about number of physical cores" MetricType.gauge
          (some MetricUnit.numeric) (source_value MetricSource.internal) MetricGranularity.platform
          (some []) "yes",
    )
    ∷ (
      value MetricName.platform_topology_cpus,
      described "Platform information about number of logical cpus" MetricType.gauge
          (some MetricUnit.numeric) (source_value MetricSource.internal) MetricGranularity.platform
          (some []) "yes",
    )
    ∷ (
      value MetricName.platform_topology_sockets,
      described "Platform information about number of sockets" MetricType.gauge
          (some MetricUnit.numeric) (source_value MetricSource.internal) MetricGranularity.platform
          (some []) "yes",
    )
    ∷ (
      value MetricName.platform_dimm_count,
      described "Number of RAM DIMM (all types memory modules)" MetricType.gauge
          (some MetricUnit.numeric) (source_value MetricSource.dmidecode_binary)
          MetricGranularity.platform (some ("dimm_type" ∷ [])) "no (gather_hw_mm_topology)",
    )
    ∷ (
      value MetricName.platform_dimm_total_size_bytes,
      described "Total RAM size (all types memory modules)" MetricType.gauge (some MetricUnit.bytes)
          (source_value MetricSource.dmidecode_binary) MetricGranularity.platform
          (some ("dimm_type" ∷ [])) "no (gather_hw_mm_topology)",
    )
    ∷ (
      value MetricName.platform_mem_mode_size_bytes,
      described "Size of RAM (Persistent memory) configured in memory mode." MetricType.gauge
          (some MetricUnit.numeric) (source_value MetricSource.ipmctl_binary)
          MetricGranularity.platform (some []) "no (gather_hw_mm_topology)",
    )
    ∷ (
      value MetricName.platform_dimm_speed_bytes_per_second,
      described "Total platform DRAM speed" MetricType.gauge (some MetricUnit.bytes_per_second)
          (source_value MetricSource.dmidecode_binary) MetricGranularity.platform (some [])
          "no (gather_hw_mm_topology)",
    )
    ∷ (
      value MetricName.platform_cpu_usage,
      described
          "Logical CPU usage in 1/USER_HZ (usually 10ms).Calculated using values based on /proc/stat."
          MetricType.counter (some MetricUnit.numeric) (source_value MetricSource.procfs)
          MetricGranularity.platform (some ("cpu" ∷ [])) "yes",
    )
    ∷ (
      value MetricName.platform_mem_usage_bytes,
      described
          "Total memory used by platform in bytes based on /proc/meminfo and uses heuristic based on linux free tool (total - free - buffers - cache)."
          MetricType.gauge (some MetricUnit.bytes) (source_value MetricSource.procfs)
          MetricGranularity.platform (some []) "yes",
    )
    ∷ []
