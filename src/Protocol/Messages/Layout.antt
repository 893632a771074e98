-- ===== src/Protocol/Messages/Layout.antt =====
-- What `EncodeMessage` writes, field by field, and what it refuses.
use merkle_lan_sync.Base.{
  ℕ, ◌≡◌, refl, List, [], ◌++◌, append_assoc, Option, none, some, Result, ok, err, ltb,
  if◌then◌else◌, length, Bool-cases, inl, inr,
}
use merkle_lan_sync.Bytes.{put_be}
use merkle_lan_sync.Protocol.Errors.{Error, chunk_too_large, string_too_long}
use merkle_lan_sync.Protocol.Framing.{max_chunk_len}
use merkle_lan_sync.Protocol.Messages.{
  Index, Message, hello, index, index_update, request, response, ping, close,
}
use merkle_lan_sync.Protocol.Messages.Reads.{prefixed}
use merkle_lan_sync.Protocol.Messages.Buffers.{enc_uint, enc_len_prefixed}
use merkle_lan_sync.Protocol.Messages.Codec.{encode_message}

abbrev index_layout : Index → List ℕ
index_layout m = prefixed m.folder_id ++ (put_be 4 m.count ++ m.body)

-- The payload of a message, in the order of the grammar.
abbrev pub layout : Message → List ℕ
layout (hello h) =
    put_be 2 h.proto_version
    ++ (h.device_id ++ (prefixed h.folder_id ++ (h.root_hash ++ put_be 4 h.feature_flags)))
layout (index m) = index_layout m
layout (index_update m) = index_layout m
layout (request r) =
    put_be 4 r.req_id
    ++ (prefixed r.path ++ (r.content_hash ++ (put_be 8 r.offset ++ put_be 4 r.len)))
layout (response r) = put_be 4 r.req_id ++ (put_be 1 r.code ++ r.chunk)
layout ping = []
layout (close reason) = prefixed reason

abbrev too_long : List ℕ → Option Error
too_long s = if ltb 0xFFFF (length s) then some string_too_long else none

-- A string of more than 65535 bytes, or a chunk above the budget, and nothing else.
abbrev pub obstacle : Message → Option Error
obstacle (hello h) = too_long h.folder_id
obstacle (index m) = too_long m.folder_id
obstacle (index_update m) = too_long m.folder_id
obstacle (request r) = too_long r.path
obstacle (response r) = if ltb max_chunk_len (length r.chunk) then some chunk_too_large else none
obstacle ping = none
obstacle (close reason) = too_long reason

abbrev pub unless_refused : Option Error → List ℕ → Result Error (List ℕ)
unless_refused none b = ok b
unless_refused (some x) b = err x

-- `EncodeMessage` writes the fields of the message one after another, or returns the error of the
-- field that is too long; a later field never hides an earlier error.
pub encode_message_lem : (m : Message) → encode_message m ≡ unless_refused (obstacle m) (layout m)
unfolding encode_message enc_uint enc_len_prefixed
encode_message_lem (hello h) = elim (Bool-cases (ltb 0xFFFF (length h.folder_id))) [
  | inl long ↦ rw long
  | inr short ↦ rw short (simp append_assoc)
]
encode_message_lem (index m) = elim (Bool-cases (ltb 0xFFFF (length m.folder_id))) [
  | inl long ↦ rw long
  | inr short ↦ rw short (simp append_assoc)
]
encode_message_lem (index_update m) = elim (Bool-cases (ltb 0xFFFF (length m.folder_id))) [
  | inl long ↦ rw long
  | inr short ↦ rw short (simp append_assoc)
]
encode_message_lem (request r) = elim (Bool-cases (ltb 0xFFFF (length r.path))) [
  | inl long ↦ rw long
  | inr short ↦ rw short (simp append_assoc)
]
encode_message_lem (response r) = elim (Bool-cases (ltb max_chunk_len (length r.chunk))) [
  | inl long ↦ rw long
  | inr short ↦ rw short (simp append_assoc)
]
encode_message_lem ping = refl
encode_message_lem (close reason) = elim (Bool-cases (ltb 0xFFFF (length reason))) [
  | inl long ↦ rw long
  | inr short ↦ rw short (simp append_assoc)
]
