-- ===== src/Protocol.antt =====
-- internal/protocol: the version vectors, the frames and the messages that two peers exchange.
pub mod Errors
pub mod DeviceId
pub mod VersionVector
pub mod Framing
pub mod Messages
mod Tests
