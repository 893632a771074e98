-- ===== src/Protocol/Tests.antt =====
-- Frames and messages on concrete bytes.
use merkle_lan_sync.Base.{
  ℕ, ◌+◌, ◌≤◌, ◌≡◌, ◌≢◌, refl, arith, ◌⊎◌, List, [], ◌∷◌, ◌++◌, ok, err, length, All, replicate,
}
use merkle_lan_sync.Bytes.{IsByte, put_be, get_be}
use merkle_lan_sync.Protocol.Errors.{short_payload, unknown_msg_type}
use merkle_lan_sync.Protocol.Framing.{
  max_frame_len, read_frame, write_frame, read_full, read_body, split_body,
}
use merkle_lan_sync.Protocol.Framing.Laws.{read_frame_sound}
use merkle_lan_sync.Protocol.Messages.{Message, request, msg_type, recv_action, dispatch, IsTyped}
use merkle_lan_sync.Protocol.Messages.Buffers.{enc_uint, enc_len_prefixed}
use merkle_lan_sync.Protocol.Messages.Codec.{encode_message, decode_message}
use merkle_lan_sync.Protocol.Messages.RoundTrip.{decode_message-encode_message}
use merkle_lan_sync.Protocol.Messages.Errors.{decode_message_errors}

-- A PING frame, with two bytes of the next frame.
abbrev stream : List ℕ
stream = 0 ∷ 0 ∷ 0 ∷ 1 ∷ 6 ∷ 0 ∷ 0 ∷ []

stream-IsByte : All IsByte stream
stream-IsByte = omega arith

read_stream : read_frame stream ≡ (ok (6, []), 0 ∷ 0 ∷ [])
unfolding read_frame read_full get_be read_body split_body
read_stream = refl

read_frame_sound_example :
    (1 + length {A = ℕ} [] ≤ max_frame_len)
    × (buf : List ℕ) × (write_frame 6 [] ≡ ok buf)
    × (buf ++ (0 ∷ 0 ∷ []) ≡ stream)
read_frame_sound_example = read_frame_sound stream 6 [] (0 ∷ 0 ∷ []) stream-IsByte read_stream

abbrev two_bytes : List ℕ
two_bytes = 1 ∷ 2 ∷ []

two_bytes-short : 1 + length two_bytes ≤ max_frame_len
two_bytes-short = omega arith

abbrev ask : Message
ask =
    request
      (record { req_id = 1; path = b'a' ∷ []; content_hash = replicate 32 5; offset = 0; len = 3 })

ask-IsTyped : IsTyped ask
ask-IsTyped = omega arith

abbrev asked : List ℕ
asked = 0 ∷ 0 ∷ 0 ∷ 1 ∷ 0 ∷ 1 ∷ b'a' ∷ (replicate 32 5 ++ (replicate 11 0 ++ (3 ∷ [])))

encode_ask : encode_message ask ≡ ok asked
unfolding encode_message enc_uint enc_len_prefixed put_be
encode_ask = refl

decode_message-encode_message_example : decode_message (msg_type ask) asked ≡ ok ask
decode_message-encode_message_example =
    decode_message-encode_message ask asked ask-IsTyped encode_ask

decode_unknown : decode_message 9 [] ≡ err unknown_msg_type
unfolding decode_message
decode_unknown = refl

decode_message_errors_example :
    ((recv_action 9 ≡ dispatch)
      × (((m : Message) × (decode_message 9 [] ≡ ok m))
          ⊎ (decode_message 9 [] ≡ err short_payload)))
    ⊎ ((recv_action 9 ≢ dispatch) × (decode_message 9 [] ≡ err unknown_msg_type))
decode_message_errors_example = decode_message_errors 9 []
