-- ===== src/Storage.antt =====
-- What the services rely on of their stores: tables whose rows are read and written by primary
-- key, and listed. PostgreSQL, SQLAlchemy and Redis are not part of the repository, so this is an
-- interface that every component takes as an instance argument. `Assoc` fills it by association
-- lists, and `Totals` has the sums over the rows of a table, `Listing` what queries keep of them.
mod Interface
pub mod Listing
pub mod Assoc
pub mod Totals
pub mod Single
pub use Interface.{Storage, Absent, Listed}
