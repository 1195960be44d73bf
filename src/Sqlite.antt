-- ===== src/Sqlite.antt =====
-- internal/store/sqlite/sqlite.go: the SQL store. Each method is one transaction; a table is the list
-- of its rows, the newest first. The statements' constraints are those of the migrations.
pub mod Tables
pub mod Principals
pub mod Tree
pub mod Runs
pub mod Leases
pub mod Usage
pub mod Reservations
pub mod Reserve
pub mod Append
pub mod Settle
pub mod Audit
pub mod Operators
pub mod Credentials
pub mod Queries
pub mod Migrate
pub mod Summary
pub mod Budget
