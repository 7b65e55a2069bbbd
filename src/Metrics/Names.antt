-- ===== src/Metrics/Names.antt =====
-- `MetricName` and the other enumerations of wca/metrics.py. The members of `MetricName` are strings.
use Prim.Native.String.{String}
use mathlib.Core.List.{List, [], ◌∷◌}

pub data MetricType : Type 0 where
  gauge counter : MetricType

pub data MetricGranularity : Type 0 where
  platform task internal : MetricGranularity

pub data MetricUnit : Type 0 where
  bytes bytes_per_second seconds numeric timestamp watts : MetricUnit

pub data MetricSource : Type 0 where
  perf_subsystem_with_cgroups perf_subsystem_uncore resctrl cgroup procfs sysfs internal
        derived_perf_with_cgroups derived_perf_uncore orchestrator dmidecode_binary ipmctl_binary :
      MetricSource

-- The string that a source is.
abbrev pub source_value : MetricSource → String
source_value MetricSource.perf_subsystem_with_cgroups = "perf subsystem with cgroups"
source_value MetricSource.perf_subsystem_uncore = "perf subsystem with dynamic PMUs (uncore)"
source_value MetricSource.resctrl = "resctrl filesystem"
source_value MetricSource.cgroup = "cgroup filesystem"
source_value MetricSource.procfs = "/proc filesystem"
source_value MetricSource.sysfs = "/sys filesystem"
source_value MetricSource.internal = "internal"
source_value MetricSource.derived_perf_with_cgroups = "derived from perf subsystem with cgroups"
source_value MetricSource.derived_perf_uncore = "derived from perf uncore"
source_value MetricSource.orchestrator = "orchestrator"
source_value MetricSource.dmidecode_binary = "dmidecode binary output"
source_value MetricSource.ipmctl_binary = "ipmctl binary output"

pub data MetricName : Type 0 where
  task_instructions task_cycles task_cache_misses task_cache_references task_stalled_mem_loads
        task_offcore_requests_l3_miss_demand_data_rd task_offcore_requests_demand_data_rd
        task_offcore_requests_demand_rfo task_offcore_requests_outstanding_l3_miss_demand_data_rd
        task_mem_load_retired_local_pmm task_mem_load_retired_local_dram
        task_mem_load_retired_remote_dram task_mem_inst_retired_loads task_mem_inst_retired_stores
        task_dtlb_load_misses task_scaling_factor_avg task_scaling_factor_max task_ips task_ipc
        task_cache_hit_ratio task_cache_misses_per_kilo_instructions task_llc_occupancy_bytes
        task_mem_bandwidth_bytes task_mem_bandwidth_local_bytes task_mem_bandwidth_remote_bytes
        task_cpu_usage_seconds task_mem_usage_bytes task_mem_max_usage_bytes task_mem_limit_bytes
        task_mem_soft_limit_bytes task_mem_numa_pages task_mem_page_faults task_wss_referenced_bytes
        task_working_set_size_bytes task_wss_measure_overhead_seconds task_sched_stat
        task_sched_stat_numa_faults task_requested_cpus task_requested_mem_bytes task_last_seen
        task_up task_subcontainers platform_topology_cores platform_topology_cpus
        platform_topology_sockets platform_dimm_count platform_dimm_total_size_bytes
        platform_mem_mode_size_bytes platform_dimm_speed_bytes_per_second platform_cpu_usage
        platform_mem_usage_bytes platform_mem_numa_free_bytes platform_mem_numa_used_bytes
        platform_vmstat_numa_pages_migrated platform_vmstat_pgmigrate_success
        platform_vmstat_pgmigrate_fail platform_vmstat_numa_hint_faults
        platform_vmstat_numa_hint_faults_local platform_vmstat_pgfaults platform_vmstat
        platform_node_vmstat platform_pmm_bandwidth_reads platform_pmm_bandwidth_writes
        platform_cas_count_reads platform_cas_count_writes platform_upi_rxl_flits
        platform_upi_txl_flits platform_rpq_occupancy platform_rpq_inserts platform_imc_clockticks
        platform_rpq_read_latency_seconds platform_pmm_reads_bytes_per_second
        platform_pmm_writes_bytes_per_second platform_pmm_total_bytes_per_second
        platform_dram_reads_bytes_per_second platform_dram_writes_bytes_per_second
        platform_dram_total_bytes_per_second platform_dram_hit_ratio
        platform_upi_bandwidth_bytes_per_second platform_scaling_uncore_factor platform_zoneinfo
        platform_last_seen wca_up wca_information wca_tasks wca_mem_usage_bytes wca_duration_seconds
        wca_duration_seconds_avg platform_capacity_per_nvdimm_bytes
        platform_avg_power_per_nvdimm_watts platform_nvdimm_read_bandwidth_bytes_per_second
        platform_nvdimm_write_bandwidth_bytes_per_second :
      MetricName

-- The string that a member is.
abbrev pub value : MetricName → String
value MetricName.task_instructions = "task_instructions"
value MetricName.task_cycles = "task_cycles"
value MetricName.task_cache_misses = "task_cache_misses"
value MetricName.task_cache_references = "task_cache_references"
value MetricName.task_stalled_mem_loads = "task_stalled_mem_loads"
value MetricName.task_offcore_requests_l3_miss_demand_data_rd =
    "task_offcore_requests_l3_miss_demand_data_rd"
value MetricName.task_offcore_requests_demand_data_rd = "task_offcore_requests_demand_data_rd"
value MetricName.task_offcore_requests_demand_rfo = "task_offcore_requests_demand_rfo"
value MetricName.task_offcore_requests_outstanding_l3_miss_demand_data_rd =
    "task_offcore_requests_outstanding_l3_miss_demand_data_rd"
value MetricName.task_mem_load_retired_local_pmm = "task_mem_load_retired_local_pmm"
value MetricName.task_mem_load_retired_local_dram = "task_mem_load_retired_local_dram"
value MetricName.task_mem_load_retired_remote_dram = "task_mem_load_retired_remote_dram"
value MetricName.task_mem_inst_retired_loads = "task_mem_inst_retired_loads"
value MetricName.task_mem_inst_retired_stores = "task_mem_inst_retired_stores"
value MetricName.task_dtlb_load_misses = "task_dtlb_load_misses"
value MetricName.task_scaling_factor_avg = "task_scaling_factor_avg"
value MetricName.task_scaling_factor_max = "task_scaling_factor_max"
value MetricName.task_ips = "task_ips"
value MetricName.task_ipc = "task_ipc"
value MetricName.task_cache_hit_ratio = "task_cache_hit_ratio"
value MetricName.task_cache_misses_per_kilo_instructions = "task_cache_misses_per_kilo_instructions"
value MetricName.task_llc_occupancy_bytes = "task_llc_occupancy_bytes"
value MetricName.task_mem_bandwidth_bytes = "task_mem_bandwidth_bytes"
value MetricName.task_mem_bandwidth_local_bytes = "task_mem_bandwidth_local_bytes"
value MetricName.task_mem_bandwidth_remote_bytes = "task_mem_bandwidth_remote_bytes"
value MetricName.task_cpu_usage_seconds = "task_cpu_usage_seconds"
value MetricName.task_mem_usage_bytes = "task_mem_usage_bytes"
value MetricName.task_mem_max_usage_bytes = "task_mem_max_usage_bytes"
value MetricName.task_mem_limit_bytes = "task_mem_limit_bytes"
value MetricName.task_mem_soft_limit_bytes = "task_mem_soft_limit_bytes"
value MetricName.task_mem_numa_pages = "task_mem_numa_pages"
value MetricName.task_mem_page_faults = "task_mem_page_faults"
value MetricName.task_wss_referenced_bytes = "task_wss_referenced_bytes"
value MetricName.task_working_set_size_bytes = "task_working_set_size_bytes"
value MetricName.task_wss_measure_overhead_seconds = "task_wss_measure_overhead_seconds"
value MetricName.task_sched_stat = "task_sched_stat"
value MetricName.task_sched_stat_numa_faults = "task_sched_stat_numa_faults"
value MetricName.task_requested_cpus = "task_requested_cpus"
value MetricName.task_requested_mem_bytes = "task_requested_mem_bytes"
value MetricName.task_last_seen = "task_last_seen"
value MetricName.task_up = "task_up"
value MetricName.task_subcontainers = "task_subcontainers"
value MetricName.platform_topology_cores = "platform_topology_cores"
value MetricName.platform_topology_cpus = "platform_topology_cpus"
value MetricName.platform_topology_sockets = "platform_topology_sockets"
value MetricName.platform_dimm_count = "platform_dimm_count"
value MetricName.platform_dimm_total_size_bytes = "platform_dimm_total_size_bytes"
value MetricName.platform_mem_mode_size_bytes = "platform_mem_mode_size_bytes"
value MetricName.platform_dimm_speed_bytes_per_second = "platform_dimm_speed_bytes_per_second"
value MetricName.platform_cpu_usage = "platform_cpu_usage"
value MetricName.platform_mem_usage_bytes = "platform_mem_usage_bytes"
value MetricName.platform_mem_numa_free_bytes = "platform_mem_numa_free_bytes"
value MetricName.platform_mem_numa_used_bytes = "platform_mem_numa_used_bytes"
value MetricName.platform_vmstat_numa_pages_migrated = "platform_vmstat_numa_pages_migrated"
value MetricName.platform_vmstat_pgmigrate_success = "platform_vmstat_pgmigrate_success"
value MetricName.platform_vmstat_pgmigrate_fail = "platform_vmstat_pgmigrate_fail"
value MetricName.platform_vmstat_numa_hint_faults = "platform_vmstat_numa_hint_faults"
value MetricName.platform_vmstat_numa_hint_faults_local = "platform_vmstat_numa_hint_faults_local"
value MetricName.platform_vmstat_pgfaults = "platform_vmstat_pgfaults"
value MetricName.platform_vmstat = "platform_vmstat"
value MetricName.platform_node_vmstat = "platform_node_vmstat"
value MetricName.platform_pmm_bandwidth_reads = "platform_pmm_bandwidth_reads"
value MetricName.platform_pmm_bandwidth_writes = "platform_pmm_bandwidth_writes"
value MetricName.platform_cas_count_reads = "platform_cas_count_reads"
value MetricName.platform_cas_count_writes = "platform_cas_count_writes"
value MetricName.platform_upi_rxl_flits = "platform_upi_rxl_flits"
value MetricName.platform_upi_txl_flits = "platform_upi_txl_flits"
value MetricName.platform_rpq_occupancy = "platform_rpq_occupancy"
value MetricName.platform_rpq_inserts = "platform_rpq_inserts"
value MetricName.platform_imc_clockticks = "platform_imc_clockticks"
value MetricName.platform_rpq_read_latency_seconds = "platform_rpq_read_latency_seconds"
value MetricName.platform_pmm_reads_bytes_per_second = "platform_pmm_reads_bytes_per_second"
value MetricName.platform_pmm_writes_bytes_per_second = "platform_pmm_writes_bytes_per_second"
value MetricName.platform_pmm_total_bytes_per_second = "platform_pmm_total_bytes_per_second"
value MetricName.platform_dram_reads_bytes_per_second = "platform_dram_reads_bytes_per_second"
value MetricName.platform_dram_writes_bytes_per_second = "platform_dram_writes_bytes_per_second"
value MetricName.platform_dram_total_bytes_per_second = "platform_dram_total_bytes_per_second"
value MetricName.platform_dram_hit_ratio = "platform_dram_hit_ratio"
value MetricName.platform_upi_bandwidth_bytes_per_second = "platform_upi_bandwidth_bytes_per_second"
value MetricName.platform_scaling_uncore_factor = "platform_scaling_uncore_factor"
value MetricName.platform_zoneinfo = "platform_zoneinfo"
value MetricName.platform_last_seen = "platform_last_seen"
value MetricName.wca_up = "wca_up"
value MetricName.wca_information = "wca_information"
value MetricName.wca_tasks = "wca_tasks"
value MetricName.wca_mem_usage_bytes = "wca_mem_usage_bytes"
value MetricName.wca_duration_seconds = "wca_duration_seconds"
value MetricName.wca_duration_seconds_avg = "wca_duration_seconds_avg"
value MetricName.platform_capacity_per_nvdimm_bytes = "platform_capacity_per_nvdimm_bytes"
value MetricName.platform_avg_power_per_nvdimm_watts = "platform_avg_power_per_nvdimm_watts"
value MetricName.platform_nvdimm_read_bandwidth_bytes_per_second =
    "platform_nvdimm_read_bandwidth_bytes_per_second"
value MetricName.platform_nvdimm_write_bandwidth_bytes_per_second =
    "platform_nvdimm_write_bandwidth_bytes_per_second"

-- `MetricName.__members__.values()`
abbrev pub members : List MetricName
members =
    MetricName.task_instructions ∷ MetricName.task_cycles ∷ MetricName.task_cache_misses
    ∷ MetricName.task_cache_references ∷ MetricName.task_stalled_mem_loads
    ∷ MetricName.task_offcore_requests_l3_miss_demand_data_rd
    ∷ MetricName.task_offcore_requests_demand_data_rd ∷ MetricName.task_offcore_requests_demand_rfo
    ∷ MetricName.task_offcore_requests_outstanding_l3_miss_demand_data_rd
    ∷ MetricName.task_mem_load_retired_local_pmm ∷ MetricName.task_mem_load_retired_local_dram
    ∷ MetricName.task_mem_load_retired_remote_dram ∷ MetricName.task_mem_inst_retired_loads
    ∷ MetricName.task_mem_inst_retired_stores ∷ MetricName.task_dtlb_load_misses
    ∷ MetricName.task_scaling_factor_avg ∷ MetricName.task_scaling_factor_max ∷ MetricName.task_ips
    ∷ MetricName.task_ipc ∷ MetricName.task_cache_hit_ratio
    ∷ MetricName.task_cache_misses_per_kilo_instructions ∷ MetricName.task_llc_occupancy_bytes
    ∷ MetricName.task_mem_bandwidth_bytes ∷ MetricName.task_mem_bandwidth_local_bytes
    ∷ MetricName.task_mem_bandwidth_remote_bytes ∷ MetricName.task_cpu_usage_seconds
    ∷ MetricName.task_mem_usage_bytes ∷ MetricName.task_mem_max_usage_bytes
    ∷ MetricName.task_mem_limit_bytes ∷ MetricName.task_mem_soft_limit_bytes
    ∷ MetricName.task_mem_numa_pages ∷ MetricName.task_mem_page_faults
    ∷ MetricName.task_wss_referenced_bytes ∷ MetricName.task_working_set_size_bytes
    ∷ MetricName.task_wss_measure_overhead_seconds ∷ MetricName.task_sched_stat
    ∷ MetricName.task_sched_stat_numa_faults ∷ MetricName.task_requested_cpus
    ∷ MetricName.task_requested_mem_bytes ∷ MetricName.task_last_seen ∷ MetricName.task_up
    ∷ MetricName.task_subcontainers ∷ MetricName.platform_topology_cores
    ∷ MetricName.platform_topology_cpus ∷ MetricName.platform_topology_sockets
    ∷ MetricName.platform_dimm_count ∷ MetricName.platform_dimm_total_size_bytes
    ∷ MetricName.platform_mem_mode_size_bytes ∷ MetricName.platform_dimm_speed_bytes_per_second
    ∷ MetricName.platform_cpu_usage ∷ MetricName.platform_mem_usage_bytes
    ∷ MetricName.platform_mem_numa_free_bytes ∷ MetricName.platform_mem_numa_used_bytes
    ∷ MetricName.platform_vmstat_numa_pages_migrated ∷ MetricName.platform_vmstat_pgmigrate_success
    ∷ MetricName.platform_vmstat_pgmigrate_fail ∷ MetricName.platform_vmstat_numa_hint_faults
    ∷ MetricName.platform_vmstat_numa_hint_faults_local ∷ MetricName.platform_vmstat_pgfaults
    ∷ MetricName.platform_vmstat ∷ MetricName.platform_node_vmstat
    ∷ MetricName.platform_pmm_bandwidth_reads ∷ MetricName.platform_pmm_bandwidth_writes
    ∷ MetricName.platform_cas_count_reads ∷ MetricName.platform_cas_count_writes
    ∷ MetricName.platform_upi_rxl_flits ∷ MetricName.platform_upi_txl_flits
    ∷ MetricName.platform_rpq_occupancy ∷ MetricName.platform_rpq_inserts
    ∷ MetricName.platform_imc_clockticks ∷ MetricName.platform_rpq_read_latency_seconds
    ∷ MetricName.platform_pmm_reads_bytes_per_second
    ∷ MetricName.platform_pmm_writes_bytes_per_second
    ∷ MetricName.platform_pmm_total_bytes_per_second
    ∷ MetricName.platform_dram_reads_bytes_per_second
    ∷ MetricName.platform_dram_writes_bytes_per_second
    ∷ MetricName.platform_dram_total_bytes_per_second ∷ MetricName.platform_dram_hit_ratio
    ∷ MetricName.platform_upi_bandwidth_bytes_per_second ∷ MetricName.platform_scaling_uncore_factor
    ∷ MetricName.platform_zoneinfo ∷ MetricName.platform_last_seen ∷ MetricName.wca_up
    ∷ MetricName.wca_information ∷ MetricName.wca_tasks ∷ MetricName.wca_mem_usage_bytes
    ∷ MetricName.wca_duration_seconds ∷ MetricName.wca_duration_seconds_avg
    ∷ MetricName.platform_capacity_per_nvdimm_bytes ∷ MetricName.platform_avg_power_per_nvdimm_watts
    ∷ MetricName.platform_nvdimm_read_bandwidth_bytes_per_second
    ∷ MetricName.platform_nvdimm_write_bandwidth_bytes_per_second ∷ []
