-- ===== src/Transport.antt =====
-- internal/transport: authenticated connections between two devices.
pub mod Errors
pub mod Allowlist
pub mod Handshake
pub mod Conn
pub mod Machine
pub mod Stream
pub mod Identity
mod Tests
