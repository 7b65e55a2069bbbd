-- ===== src/Metrics/Table/PlatformNuma.antt =====
-- A part of `METRICS_METADATA` of wca/metrics.py: the entries from `platform_mem_numa_free_bytes` to
-- `platform_cas_count_writes`.
use workload_collocation_age.Base.{some, [], ◌∷◌}
use workload_collocation_age.Metrics.Names.{
  MetricName, MetricType, MetricUnit, MetricSource, MetricGranularity, value, source_value,
}
use workload_collocation_age.Metrics.Metadata.{Metadata, described}

abbrev pub platform_numa : Metadata
platform_numa =
    (
      value MetricName.platform_mem_numa_free_bytes,
      described "NUMA memory free per NUMA node based on /sys/devices/system/node/* (MemFree:)"
          MetricType.gauge (some MetricUnit.bytes) (source_value MetricSource.sysfs)
          MetricGranularity.platform (some ("numa_node" ∷ [])) "yes",
    )
    ∷ (
      value MetricName.platform_mem_numa_used_bytes,
      described "NUMA memory free per NUMA used based on /sys/devices/system/node/* (MemUsed:)"
          MetricType.gauge (some MetricUnit.bytes) (source_value MetricSource.sysfs)
          MetricGranularity.platform (some ("numa_node" ∷ [])) "yes",
    )
    ∷ (
      value MetricName.platform_vmstat_numa_pages_migrated,
      described "Virtual Memory stats based on /proc/vmstat for number of migrates pages (autonuma)"
          MetricType.counter (some MetricUnit.numeric) (source_value MetricSource.procfs)
          MetricGranularity.platform (some []) "yes",
    )
    ∷ (
      value MetricName.platform_vmstat_pgmigrate_success,
      described "Virtual Memory stats based on /proc/vmstat for number of migrates pages (succeed)"
          MetricType.counter (some MetricUnit.numeric) (source_value MetricSource.procfs)
          MetricGranularity.platform (some []) "yes",
    )
    ∷ (
      value MetricName.platform_vmstat_pgmigrate_fail,
      described "Virtual Memory stats based on /proc/vmstat for number of migrates pages (failed)"
          MetricType.counter (some MetricUnit.numeric) (source_value MetricSource.procfs)
          MetricGranularity.platform (some []) "yes",
    )
    ∷ (
      value MetricName.platform_vmstat_numa_hint_faults,
      described "Virtual Memory stats based on /proc/vmstat for pgfaults for migration hints"
          MetricType.counter (some MetricUnit.numeric) (source_value MetricSource.procfs)
          MetricGranularity.platform (some []) "yes",
    )
    ∷ (
      value MetricName.platform_vmstat_numa_hint_faults_local,
      described "Virtual Memory stats based on /proc/vmstat: pgfaults for migration hints (local)"
          MetricType.counter (some MetricUnit.numeric) (source_value MetricSource.procfs)
          MetricGranularity.platform (some []) "yes",
    )
    ∷ (
      value MetricName.platform_vmstat_pgfaults,
      described "Virtual Memory stats based on /proc/vmstat:number of page faults"
          MetricType.counter (some MetricUnit.numeric) (source_value MetricSource.procfs)
          MetricGranularity.platform (some []) "yes",
    )
    ∷ (
      value MetricName.platform_vmstat,
      described "Virtual Memory stats based on /proc/vmstat - all possible keys or matching regexp"
          MetricType.counter (some MetricUnit.numeric) (source_value MetricSource.procfs)
          MetricGranularity.platform (some ("key" ∷ [])) "yes (vmstat)",
    )
    ∷ (
      value MetricName.platform_node_vmstat,
      described
          "Virtual Memory stats based on /sys/devices/system/node/nodeX/vmstat all keys or matching regexp"
          MetricType.counter (some MetricUnit.numeric) (source_value MetricSource.procfs)
          MetricGranularity.platform (some ("numa_node" ∷ "key" ∷ [])) "yes (vmstat)",
    )
    ∷ (
      value MetricName.platform_pmm_bandwidth_reads,
      described "Persistent memory module number of reads." MetricType.counter
          (some MetricUnit.numeric) (source_value MetricSource.perf_subsystem_uncore)
          MetricGranularity.platform (some ("socket" ∷ "pmu_type" ∷ [])) "no (uncore_event_names)",
    )
    ∷ (
      value MetricName.platform_pmm_bandwidth_writes,
      described "Persistent memory module number of writes." MetricType.counter
          (some MetricUnit.numeric) (source_value MetricSource.perf_subsystem_uncore)
          MetricGranularity.platform (some ("socket" ∷ "pmu_type" ∷ [])) "no (uncore_event_names)",
    )
    ∷ (
      value MetricName.platform_cas_count_reads,
      described "Column adress select number of reads" MetricType.counter (some MetricUnit.numeric)
          (source_value MetricSource.perf_subsystem_uncore) MetricGranularity.platform
          (some ("socket" ∷ "pmu_type" ∷ [])) "no (uncore_event_names)",
    )
    ∷ (
      value MetricName.platform_cas_count_writes,
      described "Column adress select number of writes" MetricType.counter (some MetricUnit.numeric)
          (source_value MetricSource.perf_subsystem_uncore) MetricGranularity.platform
          (some ("socket" ∷ "pmu_type" ∷ [])) "no (uncore_event_names)",
    )
    ∷ []
