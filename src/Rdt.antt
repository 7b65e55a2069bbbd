-- ===== src/Rdt.antt =====
-- RDT (resctrl) allocations: wca/resctrl_allocations.py.
pub mod Schemata
pub mod Mask
pub mod Domains
pub mod Bandwidth
pub mod Allocation
pub mod Changeset
pub mod Perform
mod Tests
