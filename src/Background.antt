-- ===== src/Background.antt =====
-- src/remote-extension/background-tasks.ts.
pub mod Log
pub mod Reading
pub mod Paging
pub mod Tasks
pub mod Registry
pub mod Calls
pub mod Lifecycle
pub mod Index
pub mod Steps
pub mod Edits
pub mod Effects
pub mod Outcomes
mod Tests
mod TaskTests
