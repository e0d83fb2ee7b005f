-- ===== src/Transport.antt =====
-- The transport: src/internal/transport.ts. Times are whole milliseconds.
pub mod Delay
pub mod Deadline
pub mod Prepare
pub mod Body
pub mod Disposition
pub mod Observer
pub mod Execute
pub mod Decoding
