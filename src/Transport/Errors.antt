-- ===== src/Transport/Errors.antt =====
-- The error values of internal/transport that a caller can tell apart, and the ones that it wraps.
use merkle_lan_sync.Protocol.Errors as Protocol

pub data Error : Type 0 where
  untrusted_device no_peer_cert : Error
  transport_closed hello_device_mismatch hello_expected : Error
  outbound_overflow : Error
  -- An error of crypto/tls or of a socket, of which nothing is told apart.
  tls_handshake write_failed : Error
  protocol : Protocol.Error → Error
  fatal_frame : Error
