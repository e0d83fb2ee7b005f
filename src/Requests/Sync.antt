-- ===== src/Requests/Sync.antt =====
-- The synchronisation manager of src/workspace-sync.ts.
pub mod Entries
pub mod Bodies
pub mod Methods
pub mod Sent
pub mod Answered
pub mod Received
mod Tests
