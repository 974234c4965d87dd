-- ===== src/Resolutions/Consistency.antt =====
-- What the claims of resolutions/models.py stand for, and what a commit keeps of it.
mod Claims
mod Committing
mod Exact
unfoldable pub use Claims.*
pub use Committing.*
pub use Exact.*
