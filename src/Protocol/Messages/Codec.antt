-- ===== src/Protocol/Messages/Codec.antt =====
-- `EncodeMessage` and `DecodeMessage` of internal/protocol/messages.go.
use merkle_lan_sync.Base.{
  ℕ, List, [], none, some, Result, ok, err, ltb, ◌==◌, if◌then◌else◌, length,
}
use merkle_lan_sync.Protocol.Errors.{Error, chunk_too_large, unknown_msg_type}
use merkle_lan_sync.Protocol.Framing.{max_chunk_len, write_frame}
use merkle_lan_sync.Protocol.Messages.{
  Index, Message, hello, index, index_update, request, response, ping, close, msg_type,
}
use merkle_lan_sync.Protocol.Messages.Buffers.{
  EncBuf, enc_fail, enc_raw, enc_uint, enc_len_prefixed, Decoder, ◌>>=◌, pure, dec_uint,
  dec_array32, dec_len_prefixed, dec_rest,
}

encode_index_body : Index → EncBuf → EncBuf
encode_index_body m e = enc_raw m.body (enc_uint 4 m.count (enc_len_prefixed m.folder_id e))

-- `encodeInto`; the calls on the buffer stand from the inside out.
unfoldable pub encode_into : Message → EncBuf → EncBuf
unfolding encode_index_body
encode_into (hello h) e = enc_uint 4 h.feature_flags (
    enc_raw h.root_hash
      (enc_len_prefixed h.folder_id (enc_raw h.device_id (enc_uint 2 h.proto_version e))))
encode_into (index m) e = encode_index_body m e
encode_into (index_update m) e = encode_index_body m e
encode_into (request r) e =
    enc_uint 4 r.len (
      enc_uint 8 r.offset
        (enc_raw r.content_hash (enc_len_prefixed r.path (enc_uint 4 r.req_id e))))
encode_into (response r) e =
    if ltb max_chunk_len (length r.chunk)
    then enc_fail chunk_too_large e
    else enc_raw r.chunk (enc_uint 1 r.code (enc_uint 4 r.req_id e))
encode_into ping e = e
encode_into (close reason) e = enc_len_prefixed reason e

finish : EncBuf → Result Error (List ℕ)
finish e = elim e.failure [ none ↦ ok e.bytes | some x ↦ err x ]

unfoldable pub encode_message : Message → Result Error (List ℕ)
unfolding encode_into finish
encode_message m = finish (encode_into m (record { bytes = []; failure = none }))

unfoldable pub write_message : Message → Result Error (List ℕ)
unfolding encode_message
write_message m = elim (encode_message m) [
  | err x ↦ err x
  | ok payload ↦ write_frame (msg_type m) payload
]

unfoldable pub decode_hello : Decoder Message
decode_hello = do
  proto_version ← dec_uint 2
  device_id ← dec_array32
  folder_id ← dec_len_prefixed
  root_hash ← dec_array32
  feature_flags ← dec_uint 4
  pure (
      hello (record {
        proto_version = proto_version;
        device_id = device_id;
        folder_id = folder_id;
        root_hash = root_hash;
        feature_flags = feature_flags;
      }))

unfoldable pub decode_index_body : Decoder Index
decode_index_body = do
  folder_id ← dec_len_prefixed
  count ← dec_uint 4
  body ← dec_rest
  pure (record { folder_id = folder_id; count = count; body = body })

unfoldable pub decode_request : Decoder Message
decode_request = do
  req_id ← dec_uint 4
  path ← dec_len_prefixed
  content_hash ← dec_array32
  offset ← dec_uint 8
  len ← dec_uint 4
  pure (
      request (record {
        req_id = req_id;
        path = path;
        content_hash = content_hash;
        offset = offset;
        len = len;
      }))

unfoldable pub decode_response : Decoder Message
decode_response = do
  req_id ← dec_uint 4
  code ← dec_uint 1
  chunk ← dec_rest
  pure (response (record { req_id = req_id; code = code; chunk = chunk }))

unfoldable pub decode_close : Decoder Message
decode_close = do reason ← dec_len_prefixed; pure (close reason)

-- The value of a decoder run over a payload, or the error that its buffer holds at the end. With
-- an error Go's pair also holds the fields read so far, which no caller looks at.
unfoldable pub run : {A : Type 0} → Decoder A → List ℕ → Result Error A
run m payload =
    let (a, d) = m (record { payload = payload; off = 0; failure = none }) in
    elim d.failure [ none ↦ ok a | some x ↦ err x ]

unfoldable pub decode_message : ℕ → List ℕ → Result Error Message
decode_message t payload =
    if t == 0x01
    then run decode_hello payload
    else if t == 0x02
    then run (do m ← decode_index_body; pure (index m)) payload
    else if t == 0x03
    then run (do m ← decode_index_body; pure (index_update m)) payload
    else if t == 0x04
    then run decode_request payload
    else if t == 0x05
    then run decode_response payload
    else if t == 0x06
    then ok ping
    else if t == 0x07
    then if length payload == 0 then ok (close []) else run decode_close payload
    else err unknown_msg_type
