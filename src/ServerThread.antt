-- ===== src/ServerThread.antt =====
-- server/thread_pro11.c, in children.
pub mod Defs
pub mod Waits
pub mod Wakeups
pub mod Select
pub mod Links
pub mod Invariant
pub mod Keeps
pub mod Preserved
pub mod Bounds
pub mod Selects
pub mod Starts
pub mod Reach
pub mod Suspended
pub mod Apcs
pub mod Alerts
pub mod Inflight
pub mod Conserved
pub mod Statuses
pub mod Queues
pub mod Sleepers
mod Tests
pub mod Joins
pub mod Leaves
pub mod Roundtrip
pub mod Standing
pub mod Settles
