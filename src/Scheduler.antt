-- ===== src/Scheduler.antt =====
-- The scheduler of wca/scheduler: algorithms that filter and score the nodes for a new application.
pub mod Filter
pub mod Resources
pub mod Fit
pub mod Hierbar
mod Tests
pub mod Simulator
