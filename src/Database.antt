-- ===== src/Database.antt =====
-- The database that the handlers work on (app/db/base.py), and their transactions.
mod Session
mod Rows
pub mod Laws
pub mod Keeps
unfoldable pub use Session.*
pub use Rows.*
