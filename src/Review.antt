-- ===== src/Review.antt =====
-- Reviewers' decisions: reconciliation/domain/review.py.
pub mod Domain
pub mod Previews
pub mod Order
pub mod Replacement
pub mod Health
pub mod Normal
pub mod Commands
pub mod Bounds
pub mod Transitions
pub mod Lineage
mod Tests
