-- ===== src/Paper.antt =====
-- The package paper/: orders, fills, positions and trades over a store, one bar at a time.
pub mod Models
pub mod Store
pub mod Monad
pub mod Outcome
pub mod Keeps
pub mod Journal
pub mod Links
pub mod Positions
pub mod Bars
pub mod Submit
pub mod Books
pub mod Delivery
pub mod Atomic
pub mod Halts
pub mod Advance
pub mod Replay
pub mod Idempotent
pub mod Reconciliation
