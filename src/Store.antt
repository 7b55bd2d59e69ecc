-- ===== src/Store.antt =====
-- internal/store/store.go over the tables of sql/V1__init_schema.sql.
pub mod Db
pub mod Action
pub mod Statements
pub mod Queries
pub mod History
pub mod Users
pub mod Roster
pub mod Inversion
pub mod Atomicity
pub mod Balance
pub mod Consistency
pub mod Keeps
pub mod Runs
