-- ===== src/References.antt =====
-- Reservations, exclusions and trusted references: reconciliation/domain/references.py.
pub mod Domain
pub mod Preprocessing
pub mod Trusted
pub mod Counts
pub mod Partition
pub mod Reserved
pub mod Linked
pub mod Conflicted
pub mod Pending
pub mod Result
pub mod Gone
pub mod Decided
pub mod Sorted
pub mod Complete
mod Tests
