-- ===== src/Jobs.antt =====
-- Leased background work: the pure contracts (reconciliation/domain/jobs.py) and the services over
-- the database (jobs/services.py).
pub mod Domain
pub mod Services
pub mod Worker
pub mod Retry
mod Rows
pub mod Claims
mod Leases
mod Standing
pub mod Exclusion
pub mod Fencing
pub mod Steps
pub mod Constraints
mod ClaimConstraints
mod CompletionConstraints
pub mod Soundness
pub mod Closed
mod Tests
