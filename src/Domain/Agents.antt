-- ===== src/Domain/Agents.antt =====
-- The decoders of src/domain.ts for the sessions of agents and the evidence of their authentication,
-- into the types of src/agent-sessions.ts.
pub mod Auth
pub mod Evidence
pub mod Sessions
pub mod Paired
mod Tests
