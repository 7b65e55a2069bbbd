-- ===== src/Metrics/Table.antt =====
-- `METRICS_METADATA` of wca/metrics.py, put together from its parts.
mod TaskPerf
mod TaskDerived
mod TaskMemory
mod PlatformTopology
mod PlatformNuma
mod PlatformUncore
mod Internal
use workload_collocation_age.Base.{◌++◌}
use workload_collocation_age.Metrics.Metadata.{Metadata}
use TaskPerf.{task_perf}
use TaskDerived.{task_derived}
use TaskMemory.{task_memory}
use PlatformTopology.{platform_topology}
use PlatformNuma.{platform_numa}
use PlatformUncore.{platform_uncore}
use Internal.{internal}

unfoldable pub metrics_metadata : Metadata
metrics_metadata =
    task_perf ++ task_derived ++ task_memory ++ platform_topology ++ platform_numa
    ++ platform_uncore ++ internal
