-- ===== src/Ledger.antt =====
-- src/core/operation-ledger.ts.
pub mod Types
pub mod Calls
pub mod Store
pub mod Steps
pub mod Evolution
pub mod History
pub mod Identity
pub mod Replay
mod Tests
pub mod Bounds
pub mod Clearing
pub mod Invariant
