-- ===== src/Perf.antt =====
-- Derived metrics of wca/perf.py and wca/perf_uncore.py.
pub mod CgroupDerived
pub mod UncoreDerived
pub mod Tests
