-- ===== src/Domain.antt =====
-- The decoders of src/domain.ts: from a parsed response to a value of the package's own, or nothing,
-- which stands for a `DecodeFailure`.
pub mod Grammar
pub mod Read
pub mod Chains
pub mod Dates
pub mod Sync
pub mod Agents
pub mod Bindings
pub mod Sessions
pub mod Terminal
pub mod Capabilities
pub mod Handoff
pub mod Me
pub mod Redaction
pub mod Problems
