-- ===== src/Metrics/Table/TaskPerf.antt =====
-- A part of `METRICS_METADATA` of wca/metrics.py: the entries from `task_instructions` to
-- `task_mem_load_retired_local_dram`.
use workload_collocation_age.Base.{some, [], ◌∷◌}
use workload_collocation_age.Metrics.Names.{
  MetricName, MetricType, MetricUnit, MetricSource, MetricGranularity, value, source_value,
}
use workload_collocation_age.Metrics.Metadata.{Metadata, described}

abbrev pub task_perf : Metadata
task_perf =
    (
      value MetricName.task_instructions,
      described
          "Hardware PMU counter for number of instructions (PERF_COUNT_HW_INSTRUCTIONS). Fixed counter. Predefined perf PERF_TYPE_HARDWARE. Please man perf_event_open for more details."
          MetricType.counter (some MetricUnit.numeric)
          (source_value MetricSource.perf_subsystem_with_cgroups) MetricGranularity.task (some [])
          "no (event_names)",
    )
    ∷ (
      value MetricName.task_cycles,
      described
          "Hardware PMU counter for number of cycles (PERF_COUNT_HW_CPU_CYCLES). Fixed counter. Predefined perf PERF_TYPE_HARDWARE. Please man perf_event_open for more details."
          MetricType.counter (some MetricUnit.numeric)
          (source_value MetricSource.perf_subsystem_with_cgroups) MetricGranularity.task (some [])
          "no (event_names)",
    )
    ∷ (
      value MetricName.task_cache_misses,
      described
          "Hardware PMU counter for cache-misses (PERF_COUNT_HW_CACHE_MISSES).Predefined perf PERF_TYPE_HARDWARE. Please man perf_event_open for more details."
          MetricType.counter (some MetricUnit.numeric)
          (source_value MetricSource.perf_subsystem_with_cgroups) MetricGranularity.task (some [])
          "no (event_names)",
    )
    ∷ (
      value MetricName.task_cache_references,
      described
          "Hardware PMU counter for number of cache references (PERF_COUNT_HW_CACHE_REFERENCES).Predefined perf PERF_TYPE_HARDWARE. Please man perf_event_open for more details."
          MetricType.counter (some MetricUnit.numeric)
          (source_value MetricSource.perf_subsystem_with_cgroups) MetricGranularity.task (some [])
          "no (event_names)",
    )
    ∷ (
      value MetricName.task_stalled_mem_loads,
      described
          "Execution stalls while memory subsystem has an outstanding load.CYCLE_ACTIVITY.STALLS_MEM_ANYIntel SDM October 2019 19-24 Vol. 3B, Table 19-3"
          MetricType.counter (some MetricUnit.numeric)
          (source_value MetricSource.perf_subsystem_with_cgroups) MetricGranularity.task (some [])
          "no (event_names)",
    )
    ∷ (
      value MetricName.task_offcore_requests_l3_miss_demand_data_rd,
      described
          "Increment each cycle of the number of offcore outstanding demand data read requests from SQ that missed L3.Counts number of Offcore outstanding Demand Data Read requests that miss L3 cache in the superQ every cycle.OFFCORE_REQUESTS_OUTSTANDING.L3_MISS_DEMAND_DATA_RDIntel SDM October 2019 19-24 Vol. 3B, Table 19-3"
          MetricType.counter (some MetricUnit.numeric)
          (source_value MetricSource.perf_subsystem_with_cgroups) MetricGranularity.task (some [])
          "no (event_names)",
    )
    ∷ (
      value MetricName.task_offcore_requests_demand_data_rd,
      described
          "Counts the Demand Data Read requests sent to uncore. OFFCORE_REQUESTS.DEMAND_DATA_RD Intel SDM October 2019 19-24 Vol. 3B, Table 19-3"
          MetricType.counter (some MetricUnit.numeric)
          (source_value MetricSource.perf_subsystem_with_cgroups) MetricGranularity.task (some [])
          "no (event_names)",
    )
    ∷ (
      value MetricName.task_offcore_requests_demand_rfo,
      described
          "Demand RFO read requests sent to uncore, including regular RFOs, locks, ItoM. OFFCORE_REQUESTS.DEMAND_RFO Intel SDM October 2019 19-24 Vol. 3B, Table 19-3"
          MetricType.counter (some MetricUnit.numeric)
          (source_value MetricSource.perf_subsystem_with_cgroups) MetricGranularity.task (some [])
          "no (event_names)",
    )
    ∷ (
      value MetricName.task_offcore_requests_outstanding_l3_miss_demand_data_rd,
      described
          "Demand Data Read requests who miss L3 cache. OFFCORE_REQUESTS.L3_MISS_DEMAND_DATA_RD.Intel SDM October 2019 19-24 Vol. 3B, Table 19-3"
          MetricType.counter (some MetricUnit.numeric)
          (source_value MetricSource.perf_subsystem_with_cgroups) MetricGranularity.task (some [])
          "no (event_names)",
    )
    ∷ (
      value MetricName.task_mem_load_retired_local_pmm,
      described
          "Retired load instructions with local Intel® Optane™ DC persistent memory as the data source and the datarequest missed L3 (AppDirect or Memory Mode), and DRAM cache (Memory Mode). MEM_LOAD_RETIRED.LOCAL_PMM (Mnemonic) For CLX, Intel SDM October 2019 19-24 Vol. 3B, Table 19-4"
          MetricType.counter (some MetricUnit.numeric)
          (source_value MetricSource.perf_subsystem_with_cgroups) MetricGranularity.task (some [])
          "no (event_names)",
    )
    ∷ (
      value MetricName.task_mem_load_retired_local_dram,
      described
          "Retired load instructions which data sources missed L3 but serviced from local DRAM.MEM_LOAD_L3_MISS_RETIRED.LOCAL_DRAM Intel SDM October 2019 Chapters 19-24 Vol. 3B Table 19-3"
          MetricType.counter (some MetricUnit.numeric)
          (source_value MetricSource.perf_subsystem_with_cgroups) MetricGranularity.task (some [])
          "no (event_names)",
    )
    ∷ []
