-- ===== src/Recovery.antt =====
-- src/shim/thread-recovery.ts: `ThreadSubscriptionRecovery`.
pub mod Status
pub mod State
pub mod Cycle
pub mod Calls
pub mod Steps
pub mod Waiting
pub mod Threads
pub mod Ending
pub mod Tests
