-- ===== src/Measurement.antt =====
-- Parts of the measurement runner, wca/runners/measurement.py: the events of the uncore that the
-- configuration names, and the data of the tasks.
pub mod Uncore
pub mod TasksData
