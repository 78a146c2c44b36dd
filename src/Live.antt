-- ===== src/Live.antt =====
-- The live subsystem, live/: the approval flow, freshness of bars, gaps, heartbeats and sessions.
pub mod Approval
pub mod Durations
pub mod Freshness
pub mod GapMonitor
pub mod Heartbeat
pub mod StateStore
pub mod Pipeline
pub mod Dhan
