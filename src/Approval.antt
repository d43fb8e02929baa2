-- ===== src/Approval.antt =====
-- src/shim/remote-approval-policy.ts.
pub mod Tracker
pub mod Projection
pub mod Hiding
pub mod ConfigRead
pub mod Shown
pub mod Safety
mod Tests
mod ShownTests
