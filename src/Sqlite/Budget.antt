-- ===== src/Sqlite/Budget.antt =====
-- Proofs about the budget decision of sqlite.go (TryReserve and the methods that change holds).
pub mod Decision
pub mod Sums
pub mod Solvent
pub mod Holds
pub mod Hierarchy
pub mod Closing
pub mod Charges
pub mod Calls
pub mod Reach
pub mod Status
pub mod Stopped
