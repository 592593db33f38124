-- ===== src/Models.antt =====
-- app/db/models.py: a record for each table, with the table's columns. A nullable column is an
-- `Option`. Identifiers are texts, as `UUID(as_uuid=False)` makes them. A DateTime column is a number
-- of microseconds. A text column with a closed vocabulary is a data type (`Models.Status`).
mod Status
mod Tenancy
mod Devices
mod Access
mod Setup
pub use Status.*
pub use Tenancy.*
pub use Devices.*
pub use Access.*
pub use Setup.*
