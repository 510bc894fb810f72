-- ===== src/Io.antt =====
-- The binary protocol.
pub mod Types
pub mod Endian
pub mod SizeOf
pub mod Send
pub mod Stream
pub mod Recv
pub mod Query
pub mod Row
mod Examples
