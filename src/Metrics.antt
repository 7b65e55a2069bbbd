-- ===== src/Metrics.antt =====
-- Metrics of wca/metrics.py: their names and metadata, and the operations on measurements.
pub mod Names
pub mod Metadata
pub mod Table
pub mod Tree
pub mod Merge
pub mod Export
pub mod Derived
pub mod Tests
