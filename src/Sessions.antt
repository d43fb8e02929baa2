-- ===== src/Sessions.antt =====
-- src/remote-extension/stdio-sessions.ts: the sessions of `RemoteStdioSessions`, and what decides
-- whether one is launched.
pub mod Launch
pub mod Framing
pub mod Table
pub mod History
pub mod Quiet
pub mod Delivery
pub mod Admission
pub mod Tests
