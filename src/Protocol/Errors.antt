-- ===== src/Protocol/Errors.antt =====
-- The error values that internal/protocol returns, and the two that `io.ReadFull` does.
pub data Error : Type 0 where
  frame_too_large zero_length chunk_too_large : Error
  unknown_msg_type short_payload string_too_long : Error
  malformed_version_vector invalid_device_id : Error
  eof unexpected_eof : Error
