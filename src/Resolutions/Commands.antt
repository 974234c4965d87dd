-- ===== src/Resolutions/Commands.antt =====
-- The commands of `DecisionCommandService` in resolutions/services.py.
mod Statements
mod Changes
mod Service
unfoldable pub use Statements.*
unfoldable pub use Changes.*
unfoldable pub use Service.*
