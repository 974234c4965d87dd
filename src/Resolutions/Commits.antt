-- ===== src/Resolutions/Commits.antt =====
-- The branches of `commit_change` of resolutions/services.py keep the claims consistent.
mod Current
mod Moved
mod Replaced
mod Branches
pub use Current.*
pub use Branches.*
