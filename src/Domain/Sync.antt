-- ===== src/Domain/Sync.antt =====
-- The decoders of the workspace synchronisation protocol in src/domain.ts, into the types of
-- src/workspace-sync.ts. The digest and the encoding that come from Node are arguments.
pub mod Records
pub mod Entries
pub mod Session
pub mod Chunks
pub mod Changes
pub mod Envelope
pub mod Laws
pub mod Pages
mod Tests
