-- ===== src/Metrics/Table/TaskMemory.antt =====
-- A part of `METRICS_METADATA` of wca/metrics.py: the entries from `task_mem_bandwidth_remote_bytes` to
-- `task_sched_stat_numa_faults`.
use workload_collocation_age.Base.{none, some, [], ◌∷◌}
use workload_collocation_age.Metrics.Names.{
  MetricName, MetricType, MetricUnit, MetricSource, MetricGranularity, value, source_value,
}
use workload_collocation_age.Metrics.Metadata.{Metadata, described}

abbrev pub task_memory : Metadata
task_memory =
    (
      value MetricName.task_mem_bandwidth_remote_bytes,
      described "Total remote memory bandwidth using Memory Bandwidth Monitoring."
          MetricType.counter (some MetricUnit.bytes) (source_value MetricSource.resctrl)
          MetricGranularity.task (some []) "auto (rdt_enabled)",
    )
    ∷ (
      value MetricName.task_cpu_usage_seconds,
      described "Time taken by task based on cpuacct.usage (total kernel and user space)."
          MetricType.counter (some MetricUnit.seconds) (source_value MetricSource.cgroup)
          MetricGranularity.task (some []) "yes",
    )
    ∷ (
      value MetricName.task_mem_usage_bytes,
      described "Memory usage_in_bytes per tasks returned from cgroup memory subsystem."
          MetricType.gauge (some MetricUnit.bytes) (source_value MetricSource.cgroup)
          MetricGranularity.task (some []) "yes",
    )
    ∷ (
      value MetricName.task_mem_max_usage_bytes,
      described "Memory max_usage_in_bytes per tasks returned from cgroup memory subsystem."
          MetricType.gauge (some MetricUnit.bytes) (source_value MetricSource.cgroup)
          MetricGranularity.task (some []) "yes",
    )
    ∷ (
      value MetricName.task_mem_limit_bytes,
      described "Memory limit_in_bytes per tasks returned from cgroup memory subsystem."
          MetricType.gauge (some MetricUnit.bytes) (source_value MetricSource.cgroup)
          MetricGranularity.task (some []) "yes",
    )
    ∷ (
      value MetricName.task_mem_soft_limit_bytes,
      described "Memory soft_limit_in_bytes per tasks returned from cgroup memory subsystem."
          MetricType.gauge (some MetricUnit.bytes) (source_value MetricSource.cgroup)
          MetricGranularity.task (some []) "yes",
    )
    ∷ (
      value MetricName.task_mem_numa_pages,
      described
          "Number of used pages per NUMA node(key: hierarchical_total is used if available or justtotal with warning), from cgroup memory controller from memory.numa_stat file."
          MetricType.gauge (some MetricUnit.numeric) (source_value MetricSource.cgroup)
          MetricGranularity.task (some ("numa_node" ∷ [])) "yes",
    )
    ∷ (
      value MetricName.task_mem_page_faults,
      described "Number of page faults for task." MetricType.counter (some MetricUnit.numeric)
          (source_value MetricSource.cgroup) MetricGranularity.task (some []) "yes",
    )
    ∷ (
      value MetricName.task_wss_referenced_bytes,
      described
          "Task referenced bytes during last measurements cycle based on /proc/smaps Referenced field, with /proc/PIDs/clear_refs set to after task gets stable.Warning: this is intrusive collection, because can influence kernel page reclaim policy and add latency.Refer to https://github.com/brendangregg/wss#wsspl-referenced-page-flag for more details."
          MetricType.gauge (some MetricUnit.bytes) "/proc/PIDS/smaps" MetricGranularity.task
          (some []) "no (wss_reset_cycles)",
    )
    ∷ (
      value MetricName.task_working_set_size_bytes,
      described
          "Task referenced bytes during last stable measurements cycle based on /proc/smaps Referenced field, with /proc/PIDs/clear_refs set to after task gets stable.Warning: this is intrusive collection, because can influence kernel page reclaim policy and add latency.Refer to https://github.com/brendangregg/wss#wsspl-referenced-page-flag for more details."
          MetricType.gauge (some MetricUnit.bytes) "/proc/PIDS/smaps" MetricGranularity.task
          (some []) "no (wss_reset_cycles)",
    )
    ∷ (
      value MetricName.task_wss_measure_overhead_seconds,
      described
          "Seconds that WCA agent spent (kernel time) waiting for /proc/smapsor reseting accessed_bits "
          MetricType.counter (some MetricUnit.seconds) "/proc/PIDS/smaps /proc/PIDS/clear_refs"
          MetricGranularity.task (some []) "no (wss_reset_cycles)",
    )
    ∷ (
      value MetricName.task_sched_stat,
      described
          "Aggregated statistics for all pids in task (sum from all pids) from /proc/PID/sched. Each field is represented by its own key label"
          MetricType.counter none "/proc/PIDS/sched" MetricGranularity.task (some ("key" ∷ []))
          "no (sched)",
    )
    ∷ (
      value MetricName.task_sched_stat_numa_faults,
      described
          "Aggregated statistics for all pids in task from /proc/PID/sched only but only numa_faults line (sum is used as default aggregation function). Different numa_fault fields are represented by fault_type and numa_node labels"
          MetricType.counter none "/proc/PIDS/sched" MetricGranularity.task
          (some ("numa_node" ∷ "fault_type" ∷ [])) "no (sched)",
    )
    ∷ []
