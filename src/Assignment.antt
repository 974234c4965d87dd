-- ===== src/Assignment.antt =====
-- Optional-unmatched assignment over integer costs: reconciliation/domain/assignment.py.
pub mod Domain
pub mod Component
pub mod Plans
mod Columns
mod Costs
mod Selection
pub mod Optimal
pub mod Exhaustive
pub mod Gating
pub mod Selected
pub mod Gated
mod Tests
