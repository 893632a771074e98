-- ===== src/Protocol/Messages/Framed.antt =====
-- A message through its frame: what `WriteMessage` writes and `ReadFrame` reads.
use merkle_lan_sync.Base.{ℕ, ◌+◌, ◌≤◌, ◌≡◌, arith, inl, inr, List, ◌++◌, ok, Result-cases, length}
use merkle_lan_sync.Protocol.Framing.{read_frame, write_frame, max_frame_len}
use merkle_lan_sync.Protocol.Framing.Laws.{read_frame-write_frame}
use merkle_lan_sync.Protocol.Messages.{Message, msg_type, IsTyped}
use merkle_lan_sync.Protocol.Messages.Codec.{encode_message, decode_message, write_message}
use merkle_lan_sync.Protocol.Messages.RoundTrip.{decode_message-encode_message}

length-write_frame :
    (t : ℕ) (payload bytes : List ℕ)
    → write_frame t payload ≡ ok bytes
    → 1 + length payload ≤ max_frame_len
unfolding write_frame
length-write_frame t payload bytes e = ground arith

write_message_parts :
    (m : Message) (bytes : List ℕ)
    → write_message m ≡ ok bytes
    → (payload : List ℕ) × (encode_message m ≡ ok payload)
      × (write_frame (msg_type m) payload ≡ ok bytes)
unfolding write_message
write_message_parts m bytes e = elim (Result-cases (encode_message m)) [
  | inl (payload, built) ↦ (payload, built, ground (arith, built))
  | inr (x, failed) ↦ absurd (ground (arith, failed))
]

-- A message whose fields are in their Go ranges, and that `WriteMessage` writes, is read back from
-- the front of a stream: the frame has its type byte, the payload decodes to the message, and what
-- is behind it is left.
pub read_frame-write_message :
    (m : Message) (bytes rest : List ℕ)
    → IsTyped m
    → write_message m ≡ ok bytes
    → (payload : List ℕ) × (read_frame (bytes ++ rest) ≡ (ok (msg_type m, payload), rest))
      × (decode_message (msg_type m) payload ≡ ok m)
read_frame-write_message m bytes rest typed e =
    let (payload, built, framed) = write_message_parts m bytes e in
    let (buf, written, back) =
      read_frame-write_frame (msg_type m) payload rest
        (length-write_frame (msg_type m) payload bytes framed) in
    let same : buf ≡ bytes = ground (arith, written, framed) in
    (payload, rw (← same) back, decode_message-encode_message m payload typed built)
