-- ===== src/Requests.antt =====
-- What the managers of the package ask of the client, and what they make of the answers:
-- src/workspace-sync.ts, src/workspace-bindings.ts, src/agent-sessions.ts, src/machine-creates.ts,
-- src/session.ts and the managers of src/client.ts.
pub mod Value
pub mod Samples
pub mod Call
pub mod Sync
pub mod Bindings
pub mod Agents
pub mod Sessions
pub mod Dispatched
mod Tests
