-- ===== src/Resolutions.antt =====
-- Durable reviewer authority: the tables of resolutions/models.py and the command service of
-- resolutions/services.py.
pub mod Tables
pub mod Checks
pub mod Commands
pub mod Consistency
pub mod Rows
pub mod Writes
pub mod Lifecycle
pub mod Commits
pub mod Conflicts
pub mod Soundness
pub mod Steps
pub mod Reachable
pub mod Runs
pub mod Exclusive
pub mod Generations
pub mod Stale
mod Returning
mod Replacing
pub mod Approval
pub mod Transactions
mod Tests
