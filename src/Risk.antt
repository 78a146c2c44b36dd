-- ===== src/Risk.antt =====
-- The package risk/: the account, the thresholds, and the engine that may veto a signal.
mod Contracts
pub mod Account
pub mod Engine
pub mod Summary
pub use Contracts.*
