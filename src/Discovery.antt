-- ===== src/Discovery.antt =====
-- internal/discovery: finding the peer on the local network.
pub mod Announce
pub mod Registry
mod Tests
