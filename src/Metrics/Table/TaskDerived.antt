-- ===== src/Metrics/Table/TaskDerived.antt =====
-- A part of `METRICS_METADATA` of wca/metrics.py: the entries from `task_mem_load_retired_remote_dram` to
-- `task_mem_bandwidth_local_bytes`.
use workload_collocation_age.Base.{some, [], ◌∷◌}
use workload_collocation_age.Metrics.Names.{
  MetricName, MetricType, MetricUnit, MetricSource, MetricGranularity, value, source_value,
}
use workload_collocation_age.Metrics.Metadata.{Metadata, described}

abbrev pub task_derived : Metadata
task_derived =
    (
      value MetricName.task_mem_load_retired_remote_dram,
      described
          "Retired load instructions which data sources missed L3 but serviced from remote dram. MEM_LOAD_L3_MISS_RETIRED.REMOTE_DRAMIntel SDM October 2019 Chapters 19-24 Vol. 3B Table 19-3"
          MetricType.counter (some MetricUnit.numeric)
          (source_value MetricSource.perf_subsystem_with_cgroups) MetricGranularity.task (some [])
          "no (event_names)",
    )
    ∷ (
      value MetricName.task_mem_inst_retired_loads,
      described
          "MEM_INST_RETIRED.ALL_LOADS All retired load instructions. Intel SDM October 2019 Chapters 19-24 Vol. 3B Table 19-3"
          MetricType.counter (some MetricUnit.numeric)
          (source_value MetricSource.perf_subsystem_with_cgroups) MetricGranularity.task (some [])
          "no (event_names)",
    )
    ∷ (
      value MetricName.task_mem_inst_retired_stores,
      described
          "MEM_INST_RETIRED.ALL_STORES All retired store instructions. Intel SDM October 2019 Chapters 19-24 Vol. 3B Table 19-3"
          MetricType.counter (some MetricUnit.numeric)
          (source_value MetricSource.perf_subsystem_with_cgroups) MetricGranularity.task (some [])
          "no (event_names)",
    )
    ∷ (
      value MetricName.task_dtlb_load_misses,
      described
          "DTLB_LOAD_MISSES.WALK_COMPLETEDCounts demand data loads that caused a completedpage walk of any page size (4K/2M/4M/1G). This impliesit missed in all TLB levels. The page walk can end withor without a faultIntel SDM October 2019 Chapters 19-24 Vol. 3B Table 19-3"
          MetricType.counter (some MetricUnit.numeric)
          (source_value MetricSource.perf_subsystem_with_cgroups) MetricGranularity.task (some [])
          "no (event_names)",
    )
    ∷ (
      value MetricName.task_scaling_factor_avg,
      described
          "Perf subsystem metric scaling factor, averaged value of all events and cpus (value 1.0 is the best, meaning that there is no scaling at all for any metric)."
          MetricType.gauge (some MetricUnit.numeric)
          (source_value MetricSource.perf_subsystem_with_cgroups) MetricGranularity.task (some [])
          "auto (depending on event_names)",
    )
    ∷ (
      value MetricName.task_scaling_factor_max,
      described
          "Perf subsystem metric scaling factor, maximum value of all events and cpus (value 1.0 is the best, meaning that there is no scaling at all for any metric)."
          MetricType.gauge (some MetricUnit.numeric)
          (source_value MetricSource.perf_subsystem_with_cgroups) MetricGranularity.task (some [])
          "auto (depending on event_names)",
    )
    ∷ (
      value MetricName.task_ips,
      described "Instructions per second." MetricType.gauge (some MetricUnit.numeric)
          (source_value MetricSource.derived_perf_with_cgroups) MetricGranularity.task (some [])
          "no (enable_derived_metrics)",
    )
    ∷ (
      value MetricName.task_ipc,
      described "Instructions per cycle." MetricType.gauge (some MetricUnit.numeric)
          (source_value MetricSource.derived_perf_with_cgroups) MetricGranularity.task (some [])
          "no (enable_derived_metrics)",
    )
    ∷ (
      value MetricName.task_cache_hit_ratio,
      described "Cache hit ratio, based on cache-misses and cache-references." MetricType.gauge
          (some MetricUnit.numeric) (source_value MetricSource.derived_perf_with_cgroups)
          MetricGranularity.task (some []) "no (enable_derived_metrics)",
    )
    ∷ (
      value MetricName.task_cache_misses_per_kilo_instructions,
      described "Cache misses per kilo instructions." MetricType.gauge (some MetricUnit.numeric)
          (source_value MetricSource.derived_perf_with_cgroups) MetricGranularity.task (some [])
          "no (enable_derived_metrics)",
    )
    ∷ (
      value MetricName.task_llc_occupancy_bytes,
      described "LLC occupancy from resctrl filesystem based on Intel RDT technology."
          MetricType.gauge (some MetricUnit.bytes) (source_value MetricSource.resctrl)
          MetricGranularity.task (some []) "auto (rdt_enabled)",
    )
    ∷ (
      value MetricName.task_mem_bandwidth_bytes,
      described "Total memory bandwidth using Memory Bandwidth Monitoring." MetricType.counter
          (some MetricUnit.bytes) (source_value MetricSource.resctrl) MetricGranularity.task
          (some []) "auto (rdt_enabled)",
    )
    ∷ (
      value MetricName.task_mem_bandwidth_local_bytes,
      described "Total local memory bandwidth using Memory Bandwidth Monitoring." MetricType.counter
          (some MetricUnit.bytes) (source_value MetricSource.resctrl) MetricGranularity.task
          (some []) "auto (rdt_enabled)",
    )
    ∷ []
