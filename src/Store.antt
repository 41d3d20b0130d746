-- ===== src/Store.antt =====
-- internal/store/store.go: the SQLite tables as lists of rows, and each method of `Store` as the
-- meaning of its SQL statement. Failures of the driver are not modelled; the constraints of the
-- schema are.
pub mod Tables
pub mod Users
pub mod Sessions
pub mod Checks
pub mod Audit
pub mod Meta
pub mod History
pub mod Hourly
mod Tests
