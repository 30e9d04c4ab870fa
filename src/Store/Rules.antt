-- ===== src/Store/Rules.antt =====
-- The rules of reasoning about the operations of internal/db/db.go.
mod Keeping
mod Returning
mod Ensuring
mod Doing
pub use Keeping.*
pub use Returning.*
pub use Ensuring.*
pub use Doing.*
