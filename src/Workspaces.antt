-- ===== src/Workspaces.antt =====
-- Anonymous workspaces: the pure contracts (reconciliation/domain/workspaces.py), the tables
-- (workspaces/models.py and jobs/models.py), and the services over them.
pub mod Domain
pub mod Tables
pub mod Lifecycle
pub mod Quotas
pub mod Access
pub mod Revocation
pub mod Samples
mod Tests
